-- ===== src/Governance/Tests.antt =====
-- Runs of the proposal manager, and the theorems at those runs.
use sera_core.Prelude.{◌+◌, ◌≤◌, String, ◌≡◌, refl, none, some, List, [], ◌∷◌, filter}
use sera_core.Dict
use sera_core.Governance.Proposals.{
  ProposeGoalPayload, emit, create_proposal, clear_timer, drop_pending, single_key, resolve,
  approve_proposal, reject_proposal, expire_proposal, fire, start,
}
use sera_core.Governance.Proposals.History.{
  Command, create, approve, elapse, run_command, run_commands, generated, resolved, waiting,
  resolutions, all_resolutions, resolved-le-generated,
}
use sera_core.Governance.Proposals.Consent.{AllShown, spawned-AllShown}

code : Unit {0}
unfolding Dict.get Dict.set Dict.delete filter emit create_proposal clear_timer drop_pending
    single_key resolve approve_proposal reject_proposal expire_proposal fire run_command
    run_commands resolutions all_resolutions
code = tt

abbrev proposal : String → ProposeGoalPayload
proposal intent = record {
  proposal_id = none;
  proposal = record {
    intent = intent;
    parameters = record { response_context = none; entries = ("amount", "20") ∷ [] };
    user_message = some "send it";
  };
}

-- a transfer is shown and runs out; another is shown; the stale card of the first is approved
abbrev stale_click : List Command
stale_click =
    create 100 "p1" (proposal "TRANSFER")
    ∷ elapse (record { handle = 0; proposal_id = "p1"; due = 60100 })
    ∷ create 70000 "p2" (proposal "SPOT_BUY")
    ∷ approve "req" "p1"
    ∷ []

-- the only pending proposal is taken for the stale one
stale_click_approves : (run_commands stale_click start).pending ≡ []
unfolding code
stale_click_approves = refl

stale_click_counts : resolved (run_commands stale_click start).events ≡ 2
unfolding code
stale_click_counts = refl

-- the stale approval resolves p2, and p1 was resolved by its timeout alone
stale_click_each :
    resolutions "p1" stale_click start ∷ resolutions "p2" stale_click start ∷ [] ≡ 1 ∷ 1 ∷ []
unfolding code
stale_click_each = refl

resolved-le-generated_example :
    ((j : String)
      → waiting j (run_commands stale_click start) + resolutions j stale_click start
        ≤ generated j (run_commands stale_click start).events)
    × (resolved (run_commands stale_click start).events ≡ all_resolutions stale_click start)
resolved-le-generated_example = resolved-le-generated stale_click

spawned-AllShown_example : AllShown (run_commands stale_click start).events
spawned-AllShown_example = spawned-AllShown stale_click
