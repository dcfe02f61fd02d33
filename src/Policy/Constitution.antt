-- ===== src/Policy/Constitution.antt =====
-- src/constitution/: the engine, its rules, and their types. The metadata of an action is a map of
-- unknown values, of which the rules read two flags; `irreversible` and `unsafe` say whether the
-- entry is the value true.
pub mod Laws
use sera_core.Prelude.{
  String, Bool, true, false, ◌||◌, Option, none, some, List, [], ◌∷◌, if◌then◌else◌,
}
use sera_core.Dict
use sera_core.Dict.{Dict}
use sera_core.Text.{to_lower, includes}

pub record ConstitutionContext : Type 0 where
  pub principal_id : String
  pub goal_id : Option String
  pub work_item_id : Option String
  pub action : String
  pub irreversible : Bool
  pub unsafe : Bool

pub data ConstitutionStatus : Type 0 where
  allowed requires_confirmation denied : ConstitutionStatus

pub record ConstitutionFinding : Type 0 where
  pub status : ConstitutionStatus
  pub reason : String
  pub rule_id : String

pub record ConstitutionRule : Type 0 where
  pub id : String
  pub name : String
  pub description : String
  pub enabled : Bool
  pub evaluate_rule : ConstitutionContext → Option ConstitutionFinding

pub record ConstitutionDecision : Type 0 where
  pub status : ConstitutionStatus
  pub reason : String
  pub rule_id : Option String
  pub findings : List ConstitutionFinding

unfoldable pub register : ConstitutionRule → Dict ConstitutionRule → Dict ConstitutionRule
register rule rules = Dict.set rules rule.id rule

-- the three local variables of the loop
pub record Final : Type 0 where
  pub final_status : ConstitutionStatus
  pub final_reason : String
  pub escalating_rule_id : Option String

abbrev pub initial : Final
initial = record {
  final_status = allowed;
  final_reason = "All rules passed.";
  escalating_rule_id = none;
}

abbrev pub escalated : ConstitutionFinding → Final
escalated f = record {
  final_status = f.status;
  final_reason = f.reason;
  escalating_rule_id = some f.rule_id;
}

-- DENIED over REQUIRES_CONFIRMATION over ALLOWED: the status found, the status so far
unfoldable pub escalates : ConstitutionStatus → ConstitutionStatus → Bool
escalates denied denied = false
escalates denied _ = true
escalates requires_confirmation allowed = true
escalates _ _ = false

unfoldable pub judge : ConstitutionFinding → Final → Final
judge f v = if escalates f.status v.final_status then escalated f else v

-- the loop over the rules, in the order of their registration
unfoldable pub evaluate_rules :
    ConstitutionContext → Dict ConstitutionRule → Final → Final × List ConstitutionFinding
evaluate_rules context [] v = (v, [])
evaluate_rules context ((k, rule) ∷ rules) v = elim (rule.evaluate_rule context) [
  | none ↦ evaluate_rules context rules v
  | some f ↦ let (v', fs) = evaluate_rules context rules (judge f v) in (v', f ∷ fs)
]

unfoldable pub evaluate : ConstitutionContext → Dict ConstitutionRule → ConstitutionDecision
evaluate context rules =
    let (v, fs) = evaluate_rules context rules initial in
    record {
      status = v.final_status;
      reason = v.final_reason;
      rule_id = v.escalating_rule_id;
      findings = fs;
    }

-- a rule that finds `status` where its test holds, unless it is switched off
abbrev flag_rule :
    String
    → String
    → String
    → Bool
    → ConstitutionStatus
    → String
    → (ConstitutionContext → Bool)
    → ConstitutionRule
flag_rule id name description enabled status reason test = record {
  id = id;
  name = name;
  description = description;
  enabled = enabled;
  evaluate_rule = λ context.
      if enabled
      then if test context
        then some (record { status = status; reason = reason; rule_id = id })
        else none
      else none;
}

unfoldable pub destructive_action_rule : Bool → ConstitutionRule
destructive_action_rule enabled =
    flag_rule "rule-destructive-action" "Destructive Action Rule"
      "Flags actions containing delete, destroy, or remove as requiring confirmation." enabled
      requires_confirmation "Action is potentially destructive."
      (λ context.
        includes (to_lower context.action) "delete"
        || includes (to_lower context.action) "destroy"
        || includes (to_lower context.action) "remove")

unfoldable pub irreversible_action_rule : Bool → ConstitutionRule
irreversible_action_rule enabled =
    flag_rule "rule-irreversible-action" "Irreversible Action Rule"
      "Flags actions marked as irreversible in metadata." enabled requires_confirmation
      "Action is explicitly marked as irreversible." (λ context. context.irreversible)

unfoldable pub unsafe_action_rule : Bool → ConstitutionRule
unsafe_action_rule enabled =
    flag_rule "rule-unsafe-action" "Unsafe Action Rule"
      "Denies actions explicitly marked as unsafe in metadata." enabled denied
      "Action is explicitly marked as unsafe." (λ context. context.unsafe)
