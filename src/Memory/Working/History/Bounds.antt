-- ===== src/Memory/Working/History/Bounds.antt =====
-- src/memory/WorkingMemory.ts: how many events there are, and how long the lists of the category index
-- are. The map of all beliefs is not bounded: a wallet belief that a list drops stays in it.
use sera_core.Prelude.{
  ℕ, ◌-◌, ◌≤◌, String, ◌≡◌, ◌⊎◌, refl, sym, ap, ◌∙◌, none, some, List, [], ◌∷◌, ◌==◌, truthy,
  length, take, drop, length-take-le, length-drop, ltb, arith, Bool-cases, Option-cases, inl, inr,
  subst,
}
use sera_core.Dict
use sera_core.Dict.{Dict}
use sera_core.Dict.Laws.{get-set}
use sera_core.Memory.PolicyEngine.{
  Belief, MemoryProposal, Verdict, rejected, throws, mutates, evaluate,
}
use sera_core.Memory.Working.{
  WorkingMemory, MemoryItemMutated, emit, max_events, max_beliefs_per_category, evict, evict_each,
  sort_newest, prune_category, prune_each, prune_events, prune, carry_out, propose_belief,
  wallet_key, proposal_of, store_plain, store_belief, store, mutate_protected,
  get_beliefs_by_category,
}
use sera_core.Memory.Working.History.{
  Command, stores, stores_belief, proposes, run_command, run_commands,
}

abbrev IsSmall : Dict (List Belief) → Type 0
IsSmall d =
    (category : String) (bs : List Belief)
    → Dict.get d category ≡ some bs
    → length bs ≤ max_beliefs_per_category

-- at most 500 events, and at most 100 beliefs in a list of the category index
abbrev IsBounded : WorkingMemory → Type 0
IsBounded s = (length s.events ≤ max_events) × IsSmall s.category_index

evict-category_index :
    (b : Belief) (s : WorkingMemory) → (evict b s).category_index ≡ s.category_index
unfolding evict
evict-category_index b s = elim (Option-cases (truthy b.key)) [
  | inl absent ↦ rw (absent, evict) refl
  | inr (key, there) ↦ rw (there, evict) (ground arith)
]

evict_each-category_index :
    (bs : List Belief) (s : WorkingMemory) → (evict_each bs s).category_index ≡ s.category_index
unfolding evict_each
evict_each-category_index [] s = refl
evict_each-category_index (b ∷ bs) s =
    evict_each-category_index bs (evict b s) ∙ evict-category_index b s

evict-events : (b : Belief) (s : WorkingMemory) → (evict b s).events ≡ s.events
unfolding evict
evict-events b s = elim (Option-cases (truthy b.key)) [
  | inl absent ↦ rw (absent, evict) refl
  | inr (key, there) ↦ rw (there, evict) (ground arith)
]

evict_each-events : (bs : List Belief) (s : WorkingMemory) → (evict_each bs s).events ≡ s.events
unfolding evict_each
evict_each-events [] s = refl
evict_each-events (b ∷ bs) s = evict_each-events bs (evict b s) ∙ evict-events b s

-- a list of a category is small, or waits to be pruned
abbrev SmallOrIn : Dict (List Belief) → Dict (List Belief) → Type 0
SmallOrIn d index =
    (category : String) (bs : List Belief)
    → Dict.get index category ≡ some bs
    → (length bs ≤ max_beliefs_per_category) ⊎ (Dict.get d category ≡ some bs)

prune_category-SmallOrIn :
    (category : String) (bs : List Belief) (d : Dict (List Belief)) (s : WorkingMemory)
    → SmallOrIn ((category, bs) ∷ d) s.category_index
    → SmallOrIn d (prune_category category bs s).category_index
unfolding prune_category Dict.get
prune_category-SmallOrIn category bs d s h =
    elim (Bool-cases (ltb max_beliefs_per_category (length bs))) [
      | inl full ↦ rw full (λ c cs found.
          let sorted = sort_newest bs in
          let evicted = evict_each (drop max_beliefs_per_category sorted) s in
          let kept = take max_beliefs_per_category sorted in
          let seen = sym (get-set evicted.category_index category c kept) ∙ found in
          elim (Bool-cases (category == c)) [
            | inl same ↦
                let here : kept ≡ cs = cc (rw same at seen) in
                inl (
                  subst (λ l. length l ≤ max_beliefs_per_category) here
                    (length-take-le max_beliefs_per_category sorted))
            | inr other ↦
                let index = evict_each-category_index (drop max_beliefs_per_category sorted) s in
                let was = ap (λ e. Dict.get e c) (sym index) ∙ rw other at seen in
                elim (h c cs was) [ inl small ↦ inl small | inr waits ↦ inr (rw other at waits) ]
          ])
      | inr room ↦ rw room (λ c cs found. elim (h c cs found) [
        | inl small ↦ inl small
        | inr waits ↦ elim (Bool-cases (category == c)) [
          | inl same ↦
              let here : bs ≡ cs = cc (rw same at waits) in
              inl (subst (λ l. length l ≤ max_beliefs_per_category) here (ground arith))
          | inr other ↦ inr (rw other at waits)
        ]
      ])
    ]

prune_each-IsSmall :
    (d : Dict (List Belief)) (s : WorkingMemory)
    → SmallOrIn d s.category_index
    → IsSmall (prune_each d s).category_index
unfolding prune_each Dict.get
prune_each-IsSmall [] s h = λ c cs found. elim (h c cs found) [
  | inl small ↦ small
  | inr waits ↦ let z : none ≡ some cs = waits in cc
]
prune_each-IsSmall ((category, bs) ∷ d) s h =
    prune_each-IsSmall d (prune_category category bs s) (prune_category-SmallOrIn category bs d s h)

prune_category-events :
    (category : String) (bs : List Belief) (s : WorkingMemory)
    → (prune_category category bs s).events ≡ s.events
unfolding prune_category
prune_category-events category bs s = elim (Bool-cases (ltb max_beliefs_per_category (length bs))) [
  | inl full ↦ rw full (evict_each-events (drop max_beliefs_per_category (sort_newest bs)) s)
  | inr room ↦ rw room refl
]

prune_each-events :
    (d : Dict (List Belief)) (s : WorkingMemory) → (prune_each d s).events ≡ s.events
unfolding prune_each
prune_each-events [] s = refl
prune_each-events ((category, bs) ∷ d) s =
    prune_each-events d (prune_category category bs s) ∙ prune_category-events category bs s

-- a prune leaves no more than the bounds, whatever was there
prune-IsBounded : (s : WorkingMemory) → IsBounded (prune s)
unfolding prune prune_events
prune-IsBounded s =
    let cut = prune_events s in
    let events = prune_each-events s.category_index cut in
    let some_left = length-drop (length s.events - max_events) s.events in
    (
      subst (λ l. length l ≤ max_events) (sym events) (omega arith),
      prune_each-IsSmall s.category_index cut (λ c cs found. inr found),
    )

emit-IsBounded : (e : MemoryItemMutated) (s : WorkingMemory) → IsBounded s → IsBounded (emit e s)
unfolding emit
emit-IsBounded e s h = elim (Bool-cases s.has_bus) [ inl bus ↦ rw bus h | inr silent ↦ rw silent h ]

carry_out-IsBounded :
    (now : ℕ) (fresh : String) (p : MemoryProposal) (o : Verdict) (s : WorkingMemory)
    → IsBounded s
    → IsBounded (carry_out now fresh p o s).1
unfolding carry_out mutate_protected
carry_out-IsBounded now fresh p (rejected r) s h = h
carry_out-IsBounded now fresh p throws s h = h
carry_out-IsBounded now fresh p (mutates status v e) s h = emit-IsBounded _ _ (prune-IsBounded _)

store_belief-IsBounded :
    (now : ℕ) (fresh : String) (b : Belief) (s : WorkingMemory)
    → IsBounded s
    → IsBounded (store_belief now fresh b s).1
unfolding store_belief store_plain propose_belief
store_belief-IsBounded now fresh b s h = elim (Option-cases (wallet_key b)) [
  | inl plain ↦ rw (plain, store_belief) (emit-IsBounded _ _ (prune-IsBounded _))
  | inr (key, wallet) ↦
      let p = proposal_of key b in
      rw (wallet, store_belief)
        (carry_out-IsBounded now fresh p (evaluate p (Dict.get s.key_index p.key)) s h)
]

run_command-IsBounded :
    (c : Command) (s : WorkingMemory) → IsBounded s → IsBounded (run_command c s)
unfolding run_command store propose_belief
run_command-IsBounded (stores event) s h = prune-IsBounded _
run_command-IsBounded (stores_belief now fresh b) s h = store_belief-IsBounded now fresh b s h
run_command-IsBounded (proposes now fresh p) s h =
    carry_out-IsBounded now fresh p (evaluate p (Dict.get s.key_index p.key)) s h

run_commands-IsBounded :
    (cs : List Command) (s : WorkingMemory) → IsBounded s → IsBounded (run_commands cs s)
unfolding run_commands
run_commands-IsBounded [] s h = h
run_commands-IsBounded (c ∷ cs) s h =
    run_commands-IsBounded cs (run_command c s) (run_command-IsBounded c s h)

category-le :
    (category : String) (s : WorkingMemory)
    → IsSmall s.category_index
    → length (get_beliefs_by_category category s) ≤ max_beliefs_per_category
unfolding get_beliefs_by_category
category-le category s h = elim (Option-cases (Dict.get s.category_index category)) [
  | inl absent ↦ rw absent (omega arith)
  | inr (bs, there) ↦ rw there (h category bs there)
]

-- From any memory, one that a snapshot of any size was loaded into included: once an event is
-- stored, and after any further stores and proposals, there are at most 500 events, and
-- `getBeliefsByCategory` gives at most 100 beliefs for every category.
pub memory-IsBounded :
    (s : WorkingMemory) (event : String) (cs : List Command) (category : String)
    → let after = run_commands cs (store event s) in
      (length after.events ≤ max_events)
      × (length (get_beliefs_by_category category after) ≤ max_beliefs_per_category)
unfolding store
memory-IsBounded s event cs category =
    let after = run_commands cs (store event s) in
    let h = run_commands-IsBounded cs (store event s) (prune-IsBounded _) in
    (h.0, category-le category after h.1)
