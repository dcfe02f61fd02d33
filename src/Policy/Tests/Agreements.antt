-- ===== src/Policy/Tests/Agreements.antt =====
-- The agreements of one user, run.
use sera_core.Prelude.{◌≡◌, ◌≢◌, ◌↔◌, refl, none, some, List, [], ◌∷◌}
use sera_core.Dict
use sera_core.Text.{trim}
use sera_core.Policy.Authority.{AuthorityContext, full_access, has_expired}
use sera_core.Policy.Agreements.{
  AutonomyAgreement, CreateAutonomyAgreement, AutonomyAgreementStore, active, is_active, is_full,
  unique_after, lacks_chains, rejected, new_agreement, activate, lapsed, expire_if_needed,
  withdrawn, revoke, to_delegation_scope,
}
use sera_core.Policy.Agreements.Grants.{Authorizes, Grants, Authorizes-iff}
use sera_core.Policy.Agreements.History.{
  Command, activates, gets, run_command, run_commands, run_commands-Ended,
}

code : Unit {0}
unfolding Dict.get Dict.set trim has_expired is_active is_full unique_after lacks_chains rejected
    new_agreement activate lapsed expire_if_needed withdrawn revoke to_delegation_scope run_command
    run_commands
code = tt

abbrev trading : CreateAutonomyAgreement
trading = record {
  id = some "a1";
  principal_id = "0xabc";
  title = "Trading";
  intent = "buy";
  mode = full_access;
  permissions = "*" ∷ "*" ∷ [];
  expires_at = some 1000;
  next_action_summary = none;
  allowed_tool_chains = some (record { chain = "quote" ∷ "buy" ∷ []; label = none } ∷ []);
}

abbrev agreed : AutonomyAgreement
agreed = record {
  id = "a1";
  principal_id = "0xabc";
  title = "Trading";
  intent = "buy";
  mode = full_access;
  permissions = "*" ∷ [];
  status = active;
  created_at = 5;
  updated_at = 5;
  expires_at = some 1000;
  last_action_summary = none;
  next_action_summary = none;
  revocation_reason = none;
  allowed_tool_chains = some (record { chain = "quote" ∷ "buy" ∷ []; label = none } ∷ []);
}

abbrev commands : List Command
commands = activates 5 "x" trading ∷ []

agreed_found : Dict.get (run_commands commands []) "a1" ≡ some agreed
unfolding code
agreed_found = refl

abbrev buying : AuthorityContext
buying = record { principal_id = "0xabc"; goal_id = none; work_item_id = none; action = "buy" }

Authorizes-iff_example :
    Authorizes 900 buying (to_delegation_scope 900 "a1" (run_commands commands [])) ↔ (
      (a : AutonomyAgreement) × (Dict.get (run_commands commands []) "a1" ≡ some a)
      × Grants 900 buying a)
Authorizes-iff_example = Authorizes-iff 900 "a1" buying (run_commands commands [])

-- the agreement is revoked, and activated again under its id
abbrev ended : AutonomyAgreement
ended = withdrawn 6 none agreed

abbrev after_revocation : AutonomyAgreementStore
after_revocation = ("a1", ended) ∷ []

ended_found : Dict.get after_revocation "a1" ≡ some ended
unfolding code
ended_found = refl

ended_off : ended.status ≢ active
unfolding withdrawn
ended_off e = cc

run_commands-Ended_example :
    (b : AutonomyAgreement) × (Dict.get
        (run_commands (activates 7 "x" trading ∷ gets 8 "a1" ∷ []) after_revocation)
        "a1"
      ≡ some b)
    × (b.status ≡ ended.status)
run_commands-Ended_example =
    run_commands-Ended (activates 7 "x" trading ∷ gets 8 "a1" ∷ []) after_revocation "a1" ended
      ended_found ended_off
