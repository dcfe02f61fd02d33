-- ===== src/Policy/Tests.antt =====
-- The rules and the authority of an agent, run.
mod Agreements
use sera_core.Prelude.{◌≡◌, ◌↔◌, ◌⊎◌, refl, true, false, none, some, [], ◌∷◌, any}
use sera_core.Dict
use sera_core.Policy.Constitution.{
  ConstitutionContext, ConstitutionRule, denied, register, evaluate, evaluate_rules, judge,
  escalates, destructive_action_rule, irreversible_action_rule, unsafe_action_rule,
}
use sera_core.Policy.Constitution.Laws.{findings_of, decided, evaluate-decided}
use sera_core.Text.{to_lower}
use sera_core.Policy.Authority
use sera_core.Policy.Authority.{
  DelegationScope, AuthorityContext, full_access, permits, has_expired, is_full_access,
}
use sera_core.Policy.Authority.Laws.{Lasts, evaluate-allowed_iff}

abbrev rules : Dict.Dict ConstitutionRule
rules =
    register (destructive_action_rule true)
      (register (irreversible_action_rule true) (register (unsafe_action_rule true) []))

-- an action that is marked irreversible and unsafe
abbrev unsafe_transfer : ConstitutionContext
unsafe_transfer = record {
  principal_id = "0xabc";
  goal_id = none;
  work_item_id = none;
  action = "transfer";
  irreversible = true;
  unsafe = true;
}

unsafe_transfer_denied : (evaluate unsafe_transfer rules).status ≡ denied
unfolding evaluate evaluate_rules judge escalates register destructive_action_rule
    irreversible_action_rule unsafe_action_rule Dict.set to_lower
unsafe_transfer_denied = refl

evaluate-decided_example :
    let d = evaluate unsafe_transfer rules in
    let v = decided (findings_of unsafe_transfer rules) in
    (d.status ≡ v.final_status)
    × (d.reason ≡ v.final_reason)
    × (d.rule_id ≡ v.escalating_rule_id)
    × (d.findings ≡ findings_of unsafe_transfer rules)
evaluate-decided_example = evaluate-decided unsafe_transfer rules

abbrev scope : DelegationScope
scope = record {
  id = "scope1";
  principal_id = "0xabc";
  allowed_permissions = record { action = "invoke_tool" } ∷ [];
  requires_approval_permissions = record { action = "*" } ∷ [];
  expires_at = some 1000;
  autonomy_mode = none;
  agreement_id = none;
  allowed_tool_chains = none;
}

abbrev invoke_tool : AuthorityContext
invoke_tool = record {
  principal_id = "0xabc";
  goal_id = none;
  work_item_id = none;
  action = "invoke_tool";
}

needs_approval_first :
    (Authority.evaluate 999 invoke_tool scope).status ≡ Authority.requires_approval
unfolding Authority.evaluate permits has_expired is_full_access
needs_approval_first = refl

evaluate-allowed_iff_example :
    ((Authority.evaluate 999 invoke_tool scope).status ≡ Authority.allowed) ↔ (
      (scope.principal_id ≡ invoke_tool.principal_id)
      × Lasts 999 (some 1000)
      × (any (permits "invoke_tool") scope.allowed_permissions ≡ true)
      × ((any (permits "invoke_tool") scope.requires_approval_permissions ≡ false)
          ⊎ (is_full_access none ≡ true)))
evaluate-allowed_iff_example = evaluate-allowed_iff 999 invoke_tool scope
