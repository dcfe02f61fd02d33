-- ===== src/Policy/Constitution/Laws.antt =====
-- The decision of the constitution, from its findings alone.
use sera_core.Prelude.{
  ◌≡◌, refl, Bool, true, false, none, some, List, [], ◌∷◌, find_first, Option-cases, inl, inr, ◌⊎◌,
  ap, sym, ◌∙◌, if◌then◌else◌,
}
use sera_core.Dict.{Dict}
use sera_core.Policy.Constitution.{
  ConstitutionContext, ConstitutionStatus, allowed, requires_confirmation, denied,
  ConstitutionFinding, ConstitutionRule, Final, initial, escalated, escalates, judge,
  evaluate_rules, evaluate,
}

unfoldable pub denies : ConstitutionStatus → Bool
denies denied = true
denies _ = false

unfoldable pub demands : ConstitutionStatus → Bool
demands requires_confirmation = true
demands _ = false

-- what the rules find, in their order
abbrev pub findings_of : ConstitutionContext → Dict ConstitutionRule → List ConstitutionFinding
findings_of context [] = []
findings_of context ((k, rule) ∷ rules) =
    let rest = findings_of context rules in
    elim (rule.evaluate_rule context) [ none ↦ rest | some f ↦ f ∷ rest ]

-- the first denial, or else what was decided without one
unfoldable pub upheld : List ConstitutionFinding → Final → Final
upheld fs v = elim (find_first (λ f. denies f.status) fs) [ some f ↦ escalated f | none ↦ v ]

-- the first demand for confirmation, or else all is allowed
unfoldable pub confirmed : List ConstitutionFinding → Final
confirmed fs = elim (find_first (λ f. demands f.status) fs) [
  | some f ↦ escalated f
  | none ↦ initial
]

unfoldable pub decided : List ConstitutionFinding → Final
decided fs = upheld fs (confirmed fs)

upheld-cons :
    (f : ConstitutionFinding) (fs : List ConstitutionFinding) (v : Final) (b : Bool)
    → denies f.status ≡ b
    → upheld (f ∷ fs) v ≡ (if b then escalated f else upheld fs v)
unfolding upheld find_first
upheld-cons f fs v true h = rw (h, upheld) refl
upheld-cons f fs v false h = rw (h, upheld) refl

confirmed-cons :
    (f : ConstitutionFinding) (fs : List ConstitutionFinding) (b : Bool)
    → demands f.status ≡ b
    → confirmed (f ∷ fs) ≡ (if b then escalated f else confirmed fs)
unfolding confirmed find_first
confirmed-cons f fs true h = rw (h, confirmed) refl
confirmed-cons f fs false h = rw (h, confirmed) refl

unfoldable judge_each : List ConstitutionFinding → Final → Final
judge_each [] v = v
judge_each (f ∷ fs) v = judge_each fs (judge f v)

evaluate_rules-split :
    (context : ConstitutionContext) (rules : Dict ConstitutionRule) (v : Final)
    → evaluate_rules context rules v
      ≡ (judge_each (findings_of context rules) v, findings_of context rules)
unfolding evaluate_rules judge_each
evaluate_rules-split context [] v = refl
evaluate_rules-split context ((k, rule) ∷ rules) v =
    elim (Option-cases (rule.evaluate_rule context)) [
      | inl e ↦ rw e (evaluate_rules-split context rules v)
      | inr (f, e) ↦ rw e (rw (evaluate_rules-split context rules (judge f v)) refl)
    ]

-- the cases of a status
Status-cases : (s : ConstitutionStatus) → (s ≡ denied) ⊎ (s ≡ requires_confirmation) ⊎ (s ≡ allowed)
Status-cases denied = inl refl
Status-cases requires_confirmation = inr (inl refl)
Status-cases allowed = inr (inr refl)

judge-keeps :
    (f : ConstitutionFinding) (v : Final) (s t : ConstitutionStatus)
    → f.status ≡ s
    → v.final_status ≡ t
    → escalates s t ≡ false
    → judge f v ≡ v
unfolding judge
judge-keeps f v s t e h k =
    let q : escalates f.status v.final_status ≡ false = simp (e, h) k in rw q refl

judge-takes :
    (f : ConstitutionFinding) (v : Final) (s t : ConstitutionStatus)
    → f.status ≡ s
    → v.final_status ≡ t
    → escalates s t ≡ true
    → judge f v ≡ escalated f
unfolding judge
judge-takes f v s t e h k =
    let q : escalates f.status v.final_status ≡ true = simp (e, h) k in rw q refl

judge_each-denied :
    (fs : List ConstitutionFinding) (v : Final) → v.final_status ≡ denied → judge_each fs v ≡ v
unfolding judge_each escalates
judge_each-denied [] v h = refl
judge_each-denied (f ∷ fs) v h =
    let rest = judge_each-denied fs v h in
    elim (Status-cases f.status) [
      | inl e ↦ ap (judge_each fs) (judge-keeps f v _ _ e h refl) ∙ rest
      | inr (inl e) ↦ ap (judge_each fs) (judge-keeps f v _ _ e h refl) ∙ rest
      | inr (inr e) ↦ ap (judge_each fs) (judge-keeps f v _ _ e h refl) ∙ rest
    ]

judge_each-upheld :
    (fs : List ConstitutionFinding) (v : Final)
    → v.final_status ≡ requires_confirmation
    → judge_each fs v ≡ upheld fs v
unfolding judge_each escalates find_first denies upheld
judge_each-upheld [] v h = refl
judge_each-upheld (f ∷ fs) v h =
    let rest = judge_each-upheld fs v h in
    elim (Status-cases f.status) [
      | inl e ↦
          ap (judge_each fs) (judge-takes f v _ _ e h refl)
          ∙ judge_each-denied fs (escalated f) e
          ∙ sym (upheld-cons f fs v true (ap denies e))
      | inr (inl e) ↦
          ap (judge_each fs) (judge-keeps f v _ _ e h refl)
          ∙ rest
          ∙ sym (upheld-cons f fs v false (ap denies e))
      | inr (inr e) ↦
          ap (judge_each fs) (judge-keeps f v _ _ e h refl)
          ∙ rest
          ∙ sym (upheld-cons f fs v false (ap denies e))
    ]

judge_each-decided : (fs : List ConstitutionFinding) → judge_each fs initial ≡ decided fs
unfolding judge_each escalates decided denies demands find_first upheld confirmed
judge_each-decided [] = refl
judge_each-decided (f ∷ fs) = elim (Status-cases f.status) [
  | inl e ↦
      ap (judge_each fs) (judge-takes f initial _ _ e refl refl)
      ∙ judge_each-denied fs (escalated f) e
      ∙ sym (upheld-cons f fs (confirmed (f ∷ fs)) true (ap denies e))
  | inr (inl e) ↦
      ap (judge_each fs) (judge-takes f initial _ _ e refl refl)
      ∙ judge_each-upheld fs (escalated f) e
      ∙ ap (upheld fs) (sym (confirmed-cons f fs true (ap demands e)))
      ∙ sym (upheld-cons f fs (confirmed (f ∷ fs)) false (ap denies e))
  | inr (inr e) ↦
      ap (judge_each fs) (judge-keeps f initial _ _ e refl refl)
      ∙ judge_each-decided fs
      ∙ ap (upheld fs) (sym (confirmed-cons f fs false (ap demands e)))
      ∙ sym (upheld-cons f fs (confirmed (f ∷ fs)) false (ap denies e))
]

evaluate-Final :
    (context : ConstitutionContext) (rules : Dict ConstitutionRule)
    → evaluate_rules context rules initial
      ≡ (decided (findings_of context rules), findings_of context rules)
evaluate-Final context rules =
    evaluate_rules-split context rules initial
    ∙ ap (λ v. (v, findings_of context rules)) (judge_each-decided (findings_of context rules))

-- The decision's status, reason and rule are those of the first finding that denies, or else of the
-- first that demands a confirmation, or else the action is allowed by no rule; and the decision
-- lists all findings, in the order of the rules.
pub evaluate-decided :
    (context : ConstitutionContext) (rules : Dict ConstitutionRule)
    → let d = evaluate context rules in
      let v = decided (findings_of context rules) in
      (d.status ≡ v.final_status)
      × (d.reason ≡ v.final_reason)
      × (d.rule_id ≡ v.escalating_rule_id)
      × (d.findings ≡ findings_of context rules)
unfolding evaluate
evaluate-decided context rules =
    let q = evaluate-Final context rules in
    (
      ap (λ r. r.0.final_status) q,
      ap (λ r. r.0.final_reason) q,
      ap (λ r. r.0.escalating_rule_id) q,
      ap (λ r. r.1) q,
    )
