-- ===== src/Memory/PolicyEngine/Laws.antt =====
-- src/core/memory/MemoryPolicyEngine.ts: which proposals are turned down.
use sera_core.Prelude.{
  ◌<◌, String, ◌≡◌, ◌≢◌, ◌⊎◌, ◌↔◌, refl, sym, ap, subst, ◌∙◌, Bool, true, false, Option, none, some,
  List, [], ◌∷◌, ◌==◌, eq_iff, any, is_some, arith, Bool-cases, Option-cases, inl, inr,
}
use sera_core.Text.{split_on}
use sera_core.Memory.PolicyEngine.{
  Belief, MemoryProposal, MemoryStatus, active, superseded, invalidated, pending, default_policy,
  wallet_policy, namespace_of, get_policy_for, is_unverified, proposed_verification,
  get_verification_weight, is_active, weight_of, in_force, outweighs, is_protected, new_status,
  resolve_epistemic_status, evidence_count, VerificationLevel, EpistemicStatus, Reason,
  protected_key, missing_evidence, lower_weight, rejected, throws, mutates, evaluate,
}

abbrev pub protected_anywhere : List String
protected_anywhere = "system.version" ∷ "wallet.address" ∷ "wallet.privateKey" ∷ []

abbrev pub lists : String → List String → Bool
lists key = any (λ k. k == key)

-- a protected key, whatever its namespace, and a source that is a user or a reflection
abbrev pub IsGuarded : MemoryProposal → Type 0
IsGuarded p = (lists p.key protected_anywhere ≡ true) × (is_unverified p.source ≡ true)

-- an active belief weighs more than the source of the proposal
abbrev pub IsOutweighed : MemoryProposal → Option Belief → Type 0
IsOutweighed p existing =
    (b : Belief) × (existing ≡ some b)
    × (b.status ≡ some active)
    × (get_verification_weight (proposed_verification p.source) < weight_of b)

get_policy_for-cases :
    (key : String) → (get_policy_for key ≡ default_policy) ⊎ (get_policy_for key ≡ wallet_policy)
unfolding get_policy_for
get_policy_for-cases key = elim (Bool-cases (namespace_of key == "wallet")) [
  | inl wallet ↦ rw wallet (inr refl)
  | inr other ↦ rw other (inl refl)
]

lists-protected :
    (key : String) → lists key (get_policy_for key).protected_keys ≡ lists key protected_anywhere
unfolding get_policy_for namespace_of split_on
lists-protected key = elim (Bool-cases ("system.version" == key)) [
  | inl v ↦
      subst (λ k. lists k (get_policy_for k).protected_keys ≡ lists k protected_anywhere)
        ((eq_iff "system.version" key).0 v) refl
  | inr not_v ↦ elim (Bool-cases ("wallet.address" == key)) [
    | inl a ↦
        subst (λ k. lists k (get_policy_for k).protected_keys ≡ lists k protected_anywhere)
          ((eq_iff "wallet.address" key).0 a) refl
    | inr not_a ↦ elim (Bool-cases ("wallet.privateKey" == key)) [
      | inl w ↦
          subst (λ k. lists k (get_policy_for k).protected_keys ≡ lists k protected_anywhere)
            ((eq_iff "wallet.privateKey" key).0 w) refl
      | inr not_w ↦ elim (get_policy_for-cases key) [
        | inl d ↦ ap (λ q. lists key q.protected_keys) d ∙ rw (not_v, not_a, not_w) refl
        | inr w ↦ ap (λ q. lists key q.protected_keys) w ∙ rw (not_v, not_a, not_w) refl
      ]
    ]
  ]
]

is_active-active : (o : Option MemoryStatus) → is_active o ≡ true → o ≡ some active
unfolding is_active
is_active-active none h = cc
is_active-active (some active) h = refl
is_active-active (some superseded) h = cc
is_active-active (some invalidated) h = cc
is_active-active (some pending) h = cc

outweighs-IsOutweighed :
    (p : MemoryProposal) (existing : Option Belief)
    → (outweighs (in_force existing) p.source ≡ true) ↔ IsOutweighed p existing
unfolding outweighs in_force is_active
outweighs-IsOutweighed p none = (λ h. cc, λ k. let e = k.1 in cc)
outweighs-IsOutweighed p (some b) = elim (Bool-cases (is_active b.status)) [
  | inl on ↦
      rw (on, in_force)
        (
          λ h. (b, refl, is_active-active b.status on, ground arith),
          λ (c, same, ready, less).
              let here : c ≡ b = cc same in
              let under : get_verification_weight (proposed_verification p.source) < weight_of b =
                subst (λ x. get_verification_weight (proposed_verification p.source) < weight_of x)
                  here less in
              ground arith,
        )
  | inr off ↦
      rw (off, in_force)
        (
          λ h. cc,
          λ (c, same, ready, less).
              let here : c ≡ b = cc same in
              let on : is_active b.status ≡ true =
                subst (λ x. is_active x.status ≡ true) here (ap is_active ready) in
              cc,
        )
]

requires_evidence : (key : String) → (get_policy_for key).require_evidence ≡ true
requires_evidence key = elim (get_policy_for-cases key) [
  | inl d ↦ ap (λ q. q.require_evidence) d
  | inr w ↦ ap (λ q. q.require_evidence) w
]

is_protected-IsGuarded : (p : MemoryProposal) → (is_protected p ≡ true) ↔ IsGuarded p
unfolding is_protected
is_protected-IsGuarded p = rw (lists-protected p.key) (ground arith)

-- the four verdicts
evaluate-guarded :
    (p : MemoryProposal) (existing : Option Belief)
    → is_protected p ≡ true
    → evaluate p existing ≡ rejected protected_key
unfolding evaluate
evaluate-guarded p existing guarded = rw guarded refl

evaluate-bare :
    (p : MemoryProposal) (existing : Option Belief)
    → is_protected p ≡ false
    → p.evidence ≡ none
    → evaluate p existing ≡ rejected missing_evidence
unfolding evaluate
evaluate-bare p existing free bare =
    let nothing : is_some p.evidence ≡ false = ap is_some bare in
    rw (free, requires_evidence p.key, nothing) refl

evaluate-outweighed :
    (p : MemoryProposal) (existing : Option Belief) (reference : String)
    → is_protected p ≡ false
    → p.evidence ≡ some reference
    → outweighs (in_force existing) p.source ≡ true
    → evaluate p existing ≡ rejected lower_weight
unfolding evaluate
evaluate-outweighed p existing reference free there weak =
    let known : is_some p.evidence ≡ true = ap is_some there in
    rw (free, requires_evidence p.key, known, weak) refl

evaluate-accepted :
    (p : MemoryProposal) (existing : Option Belief) (reference : String)
    → is_protected p ≡ false
    → p.evidence ≡ some reference
    → outweighs (in_force existing) p.source ≡ false
    → (s : MemoryStatus) × (v : VerificationLevel) × (e : EpistemicStatus) × (evaluate p existing
        ≡ mutates s v e)
unfolding evaluate
evaluate-accepted p existing reference free there strong =
    let known : is_some p.evidence ≡ true = ap is_some there in
    rw (free, requires_evidence p.key, known, strong)
      (
        new_status existing p,
        proposed_verification p.source,
        resolve_epistemic_status p (new_status existing p) (proposed_verification p.source)
            (evidence_count existing reference),
        ap
            (λ o. elim o [
              | none ↦ throws
              | some r ↦ mutates (new_status existing p) (proposed_verification p.source) (
                  resolve_epistemic_status p (new_status existing p)
                    (proposed_verification p.source) (evidence_count existing r))
            ])
            there,
      )

-- No proposal makes the engine throw, and one is turned down exactly when it comes from a user or a
-- reflection for one of the three protected keys, when it has no evidence, or when an active belief
-- under its key weighs more than its source.
pub evaluate-rejects :
    (p : MemoryProposal) (existing : Option Belief)
    → (evaluate p existing ≢ throws)
      × (((r : Reason) × (evaluate p existing ≡ rejected r))
          ↔ (IsGuarded p ⊎ (p.evidence ≡ none) ⊎ IsOutweighed p existing))
evaluate-rejects p existing = elim (Bool-cases (is_protected p)) [
  | inl guarded ↦
      let verdict = evaluate-guarded p existing guarded in
      (
        (λ h. cc),
        ((λ k. inl ((is_protected-IsGuarded p).0 guarded)), (λ k. (protected_key, verdict))),
      )
  | inr free ↦ elim (Option-cases p.evidence) [
    | inl bare ↦
        let verdict = evaluate-bare p existing free bare in
        ((λ h. cc), ((λ k. inr (inl bare)), (λ k. (missing_evidence, verdict))))
    | inr (reference, there) ↦ elim (Bool-cases (outweighs (in_force existing) p.source)) [
      | inl weak ↦
          let verdict = evaluate-outweighed p existing reference free there weak in
          let reason = (outweighs-IsOutweighed p existing).0 weak in
          ((λ h. cc), ((λ k. inr (inr reason)), (λ k. (lower_weight, verdict))))
      | inr strong ↦
          let (s, v, e, verdict) = evaluate-accepted p existing reference free there strong in
          (
            (λ h. cc),
            (
              (λ (r, same). let z : mutates s v e ≡ rejected r = sym verdict ∙ same in cc),
              (λ k. elim k [
                | inl guarded ↦ let z = (is_protected-IsGuarded p).1 guarded in cc
                | inr (inl bare) ↦ cc
                | inr (inr weak) ↦ let z = (outweighs-IsOutweighed p existing).1 weak in cc
              ]),
            ),
          )
    ]
  ]
]
