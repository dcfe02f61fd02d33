-- ===== src/Memory/Working/History/Keys.antt =====
-- The index by key: what each call does to it.
use sera_core.Prelude.{
  ℕ, String, ◌≡◌, ◌≢◌, refl, sym, ap, ◌∙◌, true, Option, none, some, List, [], ◌∷◌, ◌==◌, eq_iff,
  truthy, length, drop, ltb, is_empty, arith, Bool-cases, Option-cases, inl, inr, subst,
}
use sera_core.Dict
use sera_core.Dict.{Dict}
use sera_core.Dict.Laws.{get-set, get-delete, get-set_ne, get-delete_ne}
use sera_core.Text.{strip_prefix}
use sera_core.Memory.PolicyEngine.{
  Belief, MemoryProposal, MemoryStatus, VerificationLevel, EpistemicStatus, Verdict, rejected,
  throws, mutates, evaluate,
}
use sera_core.Memory.Working.{
  WorkingMemory, MemoryItemMutated, emit, evict, evict_each, prune_category, prune_each,
  prune_events, prune, add_belief_to_index, leave_key, remove_belief_from_index, leave_existing,
  mutate_protected, carry_out, propose_belief, store_plain, is_wallet, sort_newest,
  max_beliefs_per_category, new_item,
}

-- a belief is found under its own key
abbrev pub IsKeyed : Dict Belief → Type 0
IsKeyed d = (k : String) (b : Belief) → Dict.get d k ≡ some b → truthy b.key ≡ some k

delete-IsKeyed : (d : Dict Belief) (k : String) → IsKeyed d → IsKeyed (Dict.delete d k)
delete-IsKeyed d k h j b e =
    let seen = sym (get-delete d k j) ∙ e in
    elim (Bool-cases (k == j)) [
      | inl same ↦ let z : none ≡ some b = rw same at seen in cc
      | inr other ↦ h j b (rw other at seen)
    ]

set-IsKeyed :
    (d : Dict Belief) (k : String) (b : Belief)
    → truthy b.key ≡ some k
    → IsKeyed d
    → IsKeyed (Dict.set d k b)
set-IsKeyed d k b own h j c e =
    let seen = sym (get-set d k j b) ∙ e in
    elim (Bool-cases (k == j)) [
      | inl same ↦
          let here : b ≡ c = cc (rw same at seen) in
          subst (λ x. truthy x.key ≡ some j) here (own ∙ ap some ((eq_iff k j).0 same))
      | inr other ↦ h j c (rw other at seen)
    ]

-- a step of the memory that leaves the index well keyed, and the belief under a key as it is
abbrev pub Keeps : String → Dict Belief → Dict Belief → Type 0
Keeps k d d' = (Dict.get d' k ≡ Dict.get d k) × (IsKeyed d → IsKeyed d')

pub Keeps-self : (k : String) (d : Dict Belief) → Keeps k d d
Keeps-self k d = (refl, λ h. h)

pub Keeps-trans : (k : String) (a b c : Dict Belief) → Keeps k a b → Keeps k b c → Keeps k a c
Keeps-trans k a b c h g = (g.0 ∙ h.0, λ x. g.1 (h.1 x))

delete-Keeps : (k j : String) (d : Dict Belief) → j ≢ k → Keeps k d (Dict.delete d j)
delete-Keeps k j d other = (get-delete_ne d j k other, delete-IsKeyed d j)

module _ (k : String) (wallet : is_wallet k ≡ true) where
  evict-Keeps : (b : Belief) (s : WorkingMemory) → Keeps k s.key_index (evict b s).key_index
  unfolding evict
  evict-Keeps b s = elim (Option-cases (truthy b.key)) [
    | inl absent ↦ rw (absent, evict) (Keeps-self k s.key_index)
    | inr (j, there) ↦
        rw (there, evict)
          (elim (Bool-cases (is_wallet j)) [
            | inl kept ↦ rw kept (Keeps-self k s.key_index)
            | inr goes ↦ rw goes (delete-Keeps k j s.key_index (λ e. let z = ap is_wallet e in cc))
          ])
  ]

  evict_each-Keeps :
      (bs : List Belief) (s : WorkingMemory) → Keeps k s.key_index (evict_each bs s).key_index
  unfolding evict_each
  evict_each-Keeps [] s = Keeps-self k s.key_index
  evict_each-Keeps (b ∷ bs) s =
      Keeps-trans k s.key_index (evict b s).key_index (evict_each bs (evict b s)).key_index
        (evict-Keeps b s) (evict_each-Keeps bs (evict b s))

  prune_category-Keeps :
      (category : String) (bs : List Belief) (s : WorkingMemory)
      → Keeps k s.key_index (prune_category category bs s).key_index
  unfolding prune_category
  prune_category-Keeps category bs s =
      elim (Bool-cases (ltb max_beliefs_per_category (length bs))) [
        | inl full ↦ rw full (evict_each-Keeps (drop max_beliefs_per_category (sort_newest bs)) s)
        | inr room ↦ rw room (Keeps-self k s.key_index)
      ]

  prune_each-Keeps :
      (d : Dict (List Belief)) (s : WorkingMemory) → Keeps k s.key_index (prune_each d s).key_index
  unfolding prune_each
  prune_each-Keeps [] s = Keeps-self k s.key_index
  prune_each-Keeps ((category, bs) ∷ d) s =
      let s' = prune_category category bs s in
      Keeps-trans k s.key_index s'.key_index (prune_each d s').key_index
        (prune_category-Keeps category bs s) (prune_each-Keeps d s')

  pub prune-Keeps : (s : WorkingMemory) → Keeps k s.key_index (prune s).key_index
  unfolding prune prune_events
  prune-Keeps s = prune_each-Keeps s.category_index (prune_events s)

pub prune-IsKeyed : (s : WorkingMemory) → IsKeyed s.key_index → IsKeyed (prune s).key_index
unfolding strip_prefix
prune-IsKeyed s = (prune-Keeps "wallet." refl s).1

key_index-emit : (e : MemoryItemMutated) (s : WorkingMemory) → (emit e s).key_index ≡ s.key_index
unfolding emit
key_index-emit e s = ground arith

emit-IsKeyed :
    (e : MemoryItemMutated) (s : WorkingMemory) → IsKeyed s.key_index → IsKeyed (emit e s).key_index
emit-IsKeyed e s h = subst IsKeyed (sym (key_index-emit e s)) h

emit-Keeps :
    (k : String) (d : Dict Belief) (e : MemoryItemMutated) (s : WorkingMemory)
    → Keeps k d s.key_index
    → Keeps k d (emit e s).key_index
emit-Keeps k d e s h = subst (Keeps k d) (sym (key_index-emit e s)) h

pub add_belief_to_index-IsKeyed :
    (b : Belief) (s : WorkingMemory)
    → IsKeyed s.key_index
    → IsKeyed (add_belief_to_index b s).key_index
unfolding add_belief_to_index
add_belief_to_index-IsKeyed b s h = elim (Option-cases (truthy b.key)) [
  | inl absent ↦ rw (absent, add_belief_to_index) h
  | inr (j, there) ↦ rw (there, add_belief_to_index) (set-IsKeyed s.key_index j b there h)
]

-- a belief under another key, or under none
pub add_belief_to_index-Keeps :
    (k : String) (b : Belief) (s : WorkingMemory)
    → truthy b.key ≢ some k
    → Keeps k s.key_index (add_belief_to_index b s).key_index
unfolding add_belief_to_index
add_belief_to_index-Keeps k b s other = elim (Option-cases (truthy b.key)) [
  | inl absent ↦ rw (absent, add_belief_to_index) (Keeps-self k s.key_index)
  | inr (j, there) ↦
      rw (there, add_belief_to_index)
        (
          get-set_ne s.key_index j k b (λ e. other (there ∙ ap some e)),
          set-IsKeyed s.key_index j b there,
        )
]

leave_key-IsKeyed : (b : Belief) (d : Dict Belief) → IsKeyed d → IsKeyed (leave_key b d)
unfolding leave_key
leave_key-IsKeyed b d h = elim (Option-cases (truthy b.key)) [
  | inl absent ↦ rw (absent, leave_key) h
  | inr (j, there) ↦
      rw (there, leave_key)
        (elim (Option-cases (Dict.get d j)) [
          | inl missing ↦ rw missing h
          | inr (c, found) ↦ rw found (elim (Bool-cases (c.id == b.id)) [
            | inl same ↦ rw same (delete-IsKeyed d j h)
            | inr differs ↦ rw differs h
          ])
        ])
]

leave_key-Keeps :
    (k : String) (b : Belief) (d : Dict Belief) → truthy b.key ≢ some k → Keeps k d (leave_key b d)
unfolding leave_key
leave_key-Keeps k b d other = elim (Option-cases (truthy b.key)) [
  | inl absent ↦ rw (absent, leave_key) (Keeps-self k d)
  | inr (j, there) ↦
      rw (there, leave_key)
        (elim (Option-cases (Dict.get d j)) [
          | inl missing ↦ rw missing (Keeps-self k d)
          | inr (c, found) ↦ rw found (elim (Bool-cases (c.id == b.id)) [
            | inl same ↦ rw same (delete-Keeps k j d (λ e. other (there ∙ ap some e)))
            | inr differs ↦ rw differs (Keeps-self k d)
          ])
        ])
]

leave_existing-IsKeyed :
    (o : Option Belief) (s : WorkingMemory)
    → IsKeyed s.key_index
    → IsKeyed (leave_existing o s).key_index
unfolding leave_existing remove_belief_from_index
leave_existing-IsKeyed none s h = h
leave_existing-IsKeyed (some b) s h = leave_key-IsKeyed b s.key_index h

mutate_protected-IsKeyed :
    (now : ℕ) (fresh : String) (p : MemoryProposal) (status : MemoryStatus) (v : VerificationLevel)
    (e : EpistemicStatus) (s : WorkingMemory)
    → IsKeyed s.key_index
    → IsKeyed (mutate_protected now fresh p status v e s).key_index
unfolding mutate_protected
mutate_protected-IsKeyed now fresh p status v e s h =
    let existing = Dict.get s.key_index p.key in
    let item = new_item now fresh p status v e existing in
    let left = leave_existing existing s in
    let added = add_belief_to_index item left in
    emit-IsKeyed _ (prune added) (
      prune-IsKeyed added
        (add_belief_to_index-IsKeyed item left (leave_existing-IsKeyed existing s h)))

leave_existing-Keeps :
    (k : String) (o : Option Belief) (s : WorkingMemory)
    → ((b : Belief) → o ≡ some b → truthy b.key ≢ some k)
    → Keeps k s.key_index (leave_existing o s).key_index
unfolding leave_existing remove_belief_from_index
leave_existing-Keeps k none s h = Keeps-self k s.key_index
leave_existing-Keeps k (some b) s h = leave_key-Keeps k b s.key_index (h b refl)

truthy-ne : (j k : String) → j ≢ k → truthy (some j) ≢ some k
truthy-ne j k other e = elim (Bool-cases (is_empty j)) [
  | inl empty ↦ let z = rw empty at e in cc
  | inr filled ↦ let z = rw filled at e in other (cc z)
]

-- a change under another key
mutate_protected-Keeps :
    (k : String) (now : ℕ) (fresh : String) (p : MemoryProposal) (status : MemoryStatus)
    (v : VerificationLevel) (e : EpistemicStatus) (s : WorkingMemory)
    → is_wallet k ≡ true
    → p.key ≢ k
    → IsKeyed s.key_index
    → Keeps k s.key_index (mutate_protected now fresh p status v e s).key_index
unfolding mutate_protected new_item
mutate_protected-Keeps k now fresh p status v e s wallet other h =
    let existing = Dict.get s.key_index p.key in
    let item = new_item now fresh p status v e existing in
    let left = leave_existing existing s in
    let added = add_belief_to_index item left in
    let out =
      leave_existing-Keeps k existing s (λ b found own. other (cc (h p.key b found, own))) in
    let in_index = add_belief_to_index-Keeps k item left (truthy-ne p.key k other) in
    emit-Keeps k s.key_index _ (prune added) (
      Keeps-trans k s.key_index added.key_index (prune added).key_index
        (Keeps-trans k s.key_index left.key_index added.key_index out in_index)
        (prune-Keeps k wallet added))

carry_out-IsKeyed :
    (now : ℕ) (fresh : String) (p : MemoryProposal) (o : Verdict) (s : WorkingMemory)
    → IsKeyed s.key_index
    → IsKeyed (carry_out now fresh p o s).1.key_index
unfolding carry_out
carry_out-IsKeyed now fresh p (rejected r) s h = h
carry_out-IsKeyed now fresh p throws s h = h
carry_out-IsKeyed now fresh p (mutates status v e) s h =
    mutate_protected-IsKeyed now fresh p status v e s h

carry_out-Keeps :
    (k : String) (now : ℕ) (fresh : String) (p : MemoryProposal) (o : Verdict) (s : WorkingMemory)
    → is_wallet k ≡ true
    → p.key ≢ k
    → IsKeyed s.key_index
    → Keeps k s.key_index (carry_out now fresh p o s).1.key_index
unfolding carry_out
carry_out-Keeps k now fresh p (rejected r) s wallet other h = Keeps-self k s.key_index
carry_out-Keeps k now fresh p throws s wallet other h = Keeps-self k s.key_index
carry_out-Keeps k now fresh p (mutates status v e) s wallet other h =
    mutate_protected-Keeps k now fresh p status v e s wallet other h

pub propose_belief-IsKeyed :
    (now : ℕ) (fresh : String) (p : MemoryProposal) (s : WorkingMemory)
    → IsKeyed s.key_index
    → IsKeyed (propose_belief now fresh p s).1.key_index
unfolding propose_belief
propose_belief-IsKeyed now fresh p s h =
    carry_out-IsKeyed now fresh p (evaluate p (Dict.get s.key_index p.key)) s h

pub propose_belief-Keeps :
    (k : String) (now : ℕ) (fresh : String) (p : MemoryProposal) (s : WorkingMemory)
    → is_wallet k ≡ true
    → p.key ≢ k
    → IsKeyed s.key_index
    → Keeps k s.key_index (propose_belief now fresh p s).1.key_index
unfolding propose_belief
propose_belief-Keeps k now fresh p s wallet other h =
    carry_out-Keeps k now fresh p (evaluate p (Dict.get s.key_index p.key)) s wallet other h

pub store_plain-IsKeyed :
    (b : Belief) (s : WorkingMemory) → IsKeyed s.key_index → IsKeyed (store_plain b s).key_index
unfolding store_plain
store_plain-IsKeyed b s h =
    let added = add_belief_to_index b s in
    emit-IsKeyed _ (prune added) (prune-IsKeyed added (add_belief_to_index-IsKeyed b s h))

pub store_plain-Keeps :
    (k : String) (b : Belief) (s : WorkingMemory)
    → is_wallet k ≡ true
    → truthy b.key ≢ some k
    → Keeps k s.key_index (store_plain b s).key_index
unfolding store_plain
store_plain-Keeps k b s wallet other =
    let added = add_belief_to_index b s in
    emit-Keeps k s.key_index _ (prune added) (
      Keeps-trans k s.key_index added.key_index (prune added).key_index
        (add_belief_to_index-Keeps k b s other) (prune-Keeps k wallet added))
