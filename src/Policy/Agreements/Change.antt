-- ===== src/Policy/Agreements/Change.antt =====
-- How an operation may change the store of agreements, and that each operation does so.
use sera_core.Prelude.{
  ℕ, String, ◌≡◌, ◌⊎◌, refl, false, Option, none, some, List, [], ◌∷◌, ◌==◌, eq_iff, ◌&&◌, arith,
  Bool-cases, Option-cases, inl, inr, or_text, ap, sym, subst, ◌∙◌,
}
use sera_core.Dict
use sera_core.Dict.{Dict}
use sera_core.Dict.Laws.{get-set}
use sera_core.Policy.Authority.{has_expired}
use sera_core.Policy.Agreements.{
  AutonomyAgreement, CreateAutonomyAgreement, AutonomyAgreementStore, AgreementStatus, Result, ok,
  throw, is_active, is_full, contains, lacks_chains, unique_after, rejected, new_agreement,
  activate, lapsed, expire_if_needed, expire_each, withdrawn, revoke, require_active,
  record_activity, to_delegation_scope,
}

abbrev pub after {ℓ} : {A : Type ℓ} → Result A → AutonomyAgreementStore
after (ok a s) = s
after (throw e s) = s

-- the store has the agreement, in a state that is not active
abbrev pub Ended : String → AgreementStatus → AutonomyAgreementStore → Type 0
Ended id status s = (a : AutonomyAgreement) × (Dict.get s id ≡ some a) × (a.status ≡ status)

-- full access to everything comes with tool chains
abbrev pub IsBounded : AutonomyAgreement → Type 0
IsBounded a =
    (is_full a.mode && (contains "*" a.permissions && lacks_chains a.allowed_tool_chains)) ≡ false

abbrev pub AllBounded : AutonomyAgreementStore → Type 0
AllBounded s = (id : String) (a : AutonomyAgreement) → Dict.get s id ≡ some a → IsBounded a

-- every change of a store is a `set` of a new agreement, or one that leaves ended ones ended
pub data Change : AutonomyAgreementStore → AutonomyAgreementStore → Type 0 where
  same : {s : AutonomyAgreementStore} → Change s s
  created :
      {s : AutonomyAgreementStore} (id : String) (a : AutonomyAgreement)
      → Dict.get s id ≡ none
      → IsBounded a
      → Change s (Dict.set s id a)
  changed :
      {s : AutonomyAgreementStore} (id : String) (a b : AutonomyAgreement)
      → Dict.get s id ≡ some a
      → (is_active a.status ≡ false → b.status ≡ a.status)
      → (IsBounded a → IsBounded b)
      → Change s (Dict.set s id b)
  chain : {s t u : AutonomyAgreementStore} → Change s t → Change t u → Change s u

pub Change-Ended :
    {s t : AutonomyAgreementStore} (id : String) (status : AgreementStatus)
    → is_active status ≡ false
    → Change s t
    → Ended id status s
    → Ended id status t
Change-Ended id status off same h = h
Change-Ended id status off (created {s} j b g w) (a, e, k) = elim (Bool-cases (j == id)) [
  | inl m ↦
      let z : some a ≡ none = sym e ∙ subst (λ i. Dict.get s i ≡ none) ((eq_iff j id).0 m) g in cc
  | inr m ↦ (a, rw (get-set s j id b) (rw m e), k)
]
Change-Ended id status off (changed {s} j b b' g stays w) (a, e, k) = elim (Bool-cases (j == id)) [
  | inl m ↦
      let found = subst (λ i. Dict.get s i ≡ some b) ((eq_iff j id).0 m) g in
      let one : b ≡ a = cc in
      let ended : is_active b.status ≡ false = rw one (rw k off) in
      (b', rw (get-set s j id b') (rw m refl), stays ended ∙ ap (λ x. x.status) one ∙ k)
  | inr m ↦ (a, rw (get-set s j id b') (rw m e), k)
]
Change-Ended id status off (chain c d) h =
    Change-Ended id status off d (Change-Ended id status off c h)

set-AllBounded :
    (s : AutonomyAgreementStore) (j : String) (b : AutonomyAgreement)
    → AllBounded s
    → IsBounded b
    → AllBounded (Dict.set s j b)
set-AllBounded s j b h w id a e = elim (Bool-cases (j == id)) [
  | inl m ↦
      let one : some b ≡ some a = rw (get-set s j id b, m) at e in
      let same_one : b ≡ a = cc in subst IsBounded same_one w
  | inr m ↦ h id a (rw (get-set s j id b, m) at e)
]

pub Change-AllBounded : {s t : AutonomyAgreementStore} → Change s t → AllBounded s → AllBounded t
Change-AllBounded same h = h
Change-AllBounded (created {s} j b g w) h = set-AllBounded s j b h w
Change-AllBounded (changed {s} j b b' g stays w) h = set-AllBounded s j b' h (w (h j b g))
Change-AllBounded (chain c d) h = Change-AllBounded d (Change-AllBounded c h)

lapsed-stays :
    (now : ℕ) (a : AutonomyAgreement)
    → is_active a.status ≡ false
    → (lapsed now a).status ≡ a.status
unfolding lapsed
lapsed-stays now a h = ground arith

lapsed-IsBounded : (now : ℕ) (a : AutonomyAgreement) → IsBounded a → IsBounded (lapsed now a)
unfolding lapsed
lapsed-IsBounded now a h = elim (Bool-cases (is_active a.status && has_expired now a.expires_at)) [
  | inl e ↦ rw e h
  | inr e ↦ rw e h
]

pub expire_if_needed-Change :
    (now : ℕ) (id : String) (s : AutonomyAgreementStore) → Change s (expire_if_needed now id s)
unfolding expire_if_needed
expire_if_needed-Change now id s = elim (Option-cases (Dict.get s id)) [
  | inl g ↦ rw (g, expire_if_needed) same
  | inr (a, g) ↦
      rw (g, expire_if_needed)
        (changed id a (lapsed now a) g (lapsed-stays now a) (lapsed-IsBounded now a))
]

pub expire_each-Change :
    (now : ℕ) (ids : List String) (s : AutonomyAgreementStore) → Change s (expire_each now ids s)
unfolding expire_each
expire_each-Change now [] s = same
expire_each-Change now (id ∷ ids) s =
    chain (expire_if_needed-Change now id s)
      (expire_each-Change now ids (expire_if_needed now id s))

pub revoke-Change :
    (now : ℕ) (id : String) (reason : Option String) (s : AutonomyAgreementStore)
    → Change s (after (revoke now id reason s))
unfolding revoke withdrawn
revoke-Change now id reason s = elim (Option-cases (Dict.get s id)) [
  | inl g ↦ rw (g, revoke) same
  | inr (a, g) ↦
      rw (g, revoke)
        (elim (Bool-cases (is_active a.status)) [
          | inl e ↦
              rw e (
                changed id a (withdrawn now reason a) g (λ off. let z = sym e ∙ off in cc) (λ w. w))
          | inr e ↦ rw e same
        ])
]

pub record_activity-Change :
    (now : ℕ) (id last : String) (next : Option String) (s : AutonomyAgreementStore)
    → Change s (after (record_activity now id last next s))
unfolding record_activity require_active
record_activity-Change now id last next s =
    let expires = expire_if_needed-Change now id s in
    elim (Option-cases (Dict.get (expire_if_needed now id s) id)) [
      | inl g ↦ rw (g, record_activity) expires
      | inr (a, g) ↦
          rw (g, record_activity)
            (elim (Bool-cases (is_active a.status)) [
              | inr e ↦ rw e expires
              | inl e ↦ rw e (chain expires (changed id a _ g (λ off. refl) (λ w. w)))
            ])
    ]

pub to_delegation_scope-Change :
    (now : ℕ) (id : String) (s : AutonomyAgreementStore)
    → Change s (after (to_delegation_scope now id s))
unfolding to_delegation_scope require_active
to_delegation_scope-Change now id s =
    let expires = expire_if_needed-Change now id s in
    elim (Option-cases (Dict.get (expire_if_needed now id s) id)) [
      | inl g ↦ rw (g, to_delegation_scope) expires
      | inr (a, g) ↦
          rw (g, to_delegation_scope)
            (elim (Bool-cases (is_active a.status)) [ inr e ↦ rw e expires | inl e ↦ rw e expires ])
    ]

contains-unique_after :
    (x : String) (seen xs : List String)
    → contains x xs ≡ false
    → contains x (unique_after seen xs) ≡ false
unfolding unique_after
contains-unique_after x seen [] h = refl
contains-unique_after x seen (y ∷ ys) h = elim (Bool-cases (contains y seen)) [
  | inl e ↦ rw e (contains-unique_after x (y ∷ seen) ys (ground arith))
  | inr e ↦ rw e (ground (arith, contains-unique_after x (y ∷ seen) ys))
]

List-cases : (xs : List String) → (xs ≡ []) ⊎ ((x : String) × (ys : List String) × (xs ≡ x ∷ ys))
List-cases [] = inl refl
List-cases (x ∷ xs) = inr (x, xs, refl)

-- an input that is taken has its tool chains, where full access to everything is asked
rejected-none :
    (q : CreateAutonomyAgreement)
    → rejected q ≡ none
    → (is_full q.mode && (contains "*" q.permissions && lacks_chains q.allowed_tool_chains)) ≡ false
unfolding rejected
rejected-none q h = elim (List-cases q.permissions) [
  | inl e ↦ rw e (ground arith)
  | inr (x, ys, e) ↦ ground (arith, e)
]

new_agreement-IsBounded :
    (now : ℕ) (id : String) (q : CreateAutonomyAgreement)
    → rejected q ≡ none
    → IsBounded (new_agreement now id q)
unfolding new_agreement
new_agreement-IsBounded now id q h =
    let taken = rejected-none q h in
    elim (Bool-cases (contains "*" q.permissions)) [
      | inl e ↦ ground arith
      | inr e ↦ ground (arith, contains-unique_after "*" [] q.permissions e)
    ]

pub activate-Change :
    (now : ℕ) (fresh : String) (q : CreateAutonomyAgreement) (s : AutonomyAgreementStore)
    → Change s (after (activate now fresh q s))
unfolding activate
activate-Change now fresh q s =
    let id = or_text q.id fresh in
    elim (Option-cases (rejected q)) [
      | inr (e, r) ↦ rw (r, activate) same
      | inl r ↦
          rw (r, activate)
            (elim (Option-cases (Dict.get s id)) [
              | inr (a, g) ↦ rw g same
              | inl g ↦
                  rw g (created id (new_agreement now id q) g (new_agreement-IsBounded now id q r))
            ])
    ]
