-- ===== src/Billing/Tests.antt =====
-- Runs of the ledger, the bounties and the treasury's watcher at concrete inputs.
use sera_core.Prelude.{
  ℕ, ◌≡◌, refl, true, false, none, some, List, [], ◌∷◌, arith, ◌≢◌, eq_iff, ◌-◌, if◌then◌else◌,
  nat_eq,
}
use sera_core.Text.{lower_char, to_lower}
use sera_core.Billing.Service.Accounts
use sera_core.Billing.Ledger.{
  SubscriptionLedger, open_ledger, credited, debited, load_entries, load_from_cloud, load_from_file,
  put_entry, credit, debit_credits, has_credit, get_entry, save_to_file, save_to_file_local_only,
  schedule_cloud_save,
}
use sera_core.Billing.Service.{
  calculate_tokens, record_top_up, has_active_entitlement, consume_credits, add_credits_directly,
  get_agent_credits, infinite,
}
use sera_core.Billing.Service.Accounts.{
  Command, tops_up, consumes, adds, asks, shows, Reply, total, accepted, done, shown, run_command,
  run_commands, run_commands-refines, Bank, bank_command, bank_commands, view,
}
use sera_core.Billing.Service.Restart.{run_commands-restart}
use sera_core.Billing.Bounty.{
  BountyManagerService, add_points, deduct_points, mark_quest_completed, is_quest_completed,
  can_claim_daily, mark_daily_claimed, claim_daily_check_in, points_of_quest, claim_event_quest,
  convert_points_to_credits,
}
use sera_core.Billing.Bounty.Points
use sera_core.Billing.Bounty.Points.{Tally, IsBalanced, run_commands-IsBalanced}
use sera_core.Dict
use sera_core.Billing.Bounty.{get_points}
use sera_core.Billing.Treasury.{
  poll_range, from_block, deposit_of, credit_logs, poll_finish, poll_deposit_logs, zero_address,
  TransferLog, TreasuryDepositWatcher,
}
use sera_core.Billing.Treasury.Deposits.{
  Poll, IsClose, reach, blocks, run_polls, run_polls-deposits, deposit_all, furthest,
}

abbrev empty_ledger : SubscriptionLedger
empty_ledger = record {
  entries = [];
  file = none;
  writable = true;
  has_cloud = false;
  cloud_save_due = false;
}

abbrev purchases : List Command
purchases =
    tops_up 10 "0xAb" 2000000
    ∷ tops_up 11 "0xab" 999999
    ∷ consumes 12 "0xAB" 500
    ∷ adds 13 "0xcd" 7
    ∷ asks "0xcd"
    ∷ shows "dev"
    ∷ []

-- the bank of no account
abbrev no_accounts : Bank
no_accounts k = none

run_commands-refines_example :
    ((run_commands purchases empty_ledger).0 ≡ (bank_commands purchases (view empty_ledger)).0)
    × (view (run_commands purchases empty_ledger).1
        ≡ (bank_commands purchases (view empty_ledger)).1)
run_commands-refines_example = run_commands-refines purchases empty_ledger

run_commands-restart_example :
    (open_ledger (run_commands purchases empty_ledger).1.file true false none).entries
    ≡ (run_commands purchases empty_ledger).1.entries
run_commands-restart_example =
    run_commands-restart purchases empty_ledger false (refl, refl, tt, tt)

abbrev fresh_bounties : BountyManagerService
fresh_bounties = record {
  ledger = record { points_map = []; completed_quests = []; last_daily_check_in = [] };
  subscriptions = empty_ledger;
}

abbrev no_tally : Tally
no_tally = record { checked = 0; converted = 0 }

abbrev activity : List Points.Command
activity =
    Points.checks_in "2026-01-01" "a"
    ∷ Points.checks_in "2026-01-01" "a"
    ∷ Points.claims "a" "x-engagement"
    ∷ Points.claims "a" "x-engagement"
    ∷ Points.converts 5 "a" 1200
    ∷ Points.converts 6 "a" 400
    ∷ []

run_commands-IsBalanced_example :
    IsBalanced "a" (Points.run_commands "a" activity (fresh_bounties, no_tally))
unfolding Dict.get get_points
run_commands-IsBalanced_example =
    run_commands-IsBalanced "a" activity (fresh_bounties, no_tally) refl

abbrev watcher : TreasuryDepositWatcher
watcher = record {
  is_running = true;
  has_timer = true;
  last_processed_block = 100;
  treasury = "0xt";
}

abbrev chain : ℕ → List TransferLog
chain n =
    if nat_eq n 102
    then record { sender = some "0xAb"; value = some 3000000 }
      ∷ record { sender = none; value = some 1 }
      ∷ []
    else []

abbrev polls : List Poll
polls =
    record { now = 1; head = some 101; answers = true }
    ∷ record { now = 2; head = none; answers = true }
    ∷ record { now = 3; head = some 103; answers = false }
    ∷ record { now = 4; head = some 104; answers = true }
    ∷ []

chosen : watcher.treasury ≢ zero_address
chosen = ground (arith, eq_iff "0xt" zero_address)

near : IsClose 100 polls
unfolding reach
near = (omega arith, (omega arith, (omega arith, (omega arith, tt))))

run_polls-deposits_example :
    (let (w', s') = run_polls chain polls watcher empty_ledger in
      (w' ≡ record watcher { last_processed_block = furthest 100 polls })
      × (view s' ≡ deposit_all (blocks chain 101 (furthest 100 polls - 100)) (view empty_ledger)))
run_polls-deposits_example = run_polls-deposits chain polls watcher empty_ledger refl chosen near

-- the deposit of block 102 is credited by the poll that reaches block 104
run_polls-balance : view (run_polls chain polls watcher empty_ledger).1 "0xab" ≡ some 30000000
unfolding Dict.get Dict.set lower_char to_lower credited debited load_entries load_from_cloud
    load_from_file open_ledger put_entry credit debit_credits has_credit get_entry save_to_file
    save_to_file_local_only schedule_cloud_save calculate_tokens record_top_up
    has_active_entitlement consume_credits add_credits_directly get_agent_credits
    Accounts.run_command run_commands view get_points add_points deduct_points mark_quest_completed
    is_quest_completed can_claim_daily mark_daily_claimed claim_daily_check_in points_of_quest
    claim_event_quest convert_points_to_credits Points.run_command Points.run_commands poll_range
    from_block deposit_of credit_logs poll_finish poll_deposit_logs run_polls blocks
run_polls-balance = refl

-- two dollars buy 400,000 credits, of which ten are used; the second top-up is too small
purchases-replies :
    (run_commands purchases empty_ledger).0
    ≡ total (some 20000000)
      ∷ total none
      ∷ accepted true
      ∷ done
      ∷ accepted true
      ∷ shown infinite
      ∷ []
unfolding Dict.get Dict.set lower_char to_lower credited debited load_entries load_from_cloud
    load_from_file open_ledger put_entry credit debit_credits has_credit get_entry save_to_file
    save_to_file_local_only schedule_cloud_save calculate_tokens record_top_up
    has_active_entitlement consume_credits add_credits_directly get_agent_credits
    Accounts.run_command run_commands view get_points add_points deduct_points mark_quest_completed
    is_quest_completed can_claim_daily mark_daily_claimed claim_daily_check_in points_of_quest
    claim_event_quest convert_points_to_credits Points.run_command Points.run_commands poll_range
    from_block deposit_of credit_logs poll_finish poll_deposit_logs run_polls blocks
purchases-replies = refl

-- one check-in and one quest count, and one conversion is covered
activity-tally :
    (Points.run_commands "a" activity (fresh_bounties, no_tally)).1
    ≡ record { checked = 1; converted = 1200 }
unfolding Dict.get Dict.set lower_char to_lower credited debited load_entries load_from_cloud
    load_from_file open_ledger put_entry credit debit_credits has_credit get_entry save_to_file
    save_to_file_local_only schedule_cloud_save calculate_tokens record_top_up
    has_active_entitlement consume_credits add_credits_directly get_agent_credits
    Accounts.run_command run_commands view get_points add_points deduct_points mark_quest_completed
    is_quest_completed can_claim_daily mark_daily_claimed claim_daily_check_in points_of_quest
    claim_event_quest convert_points_to_credits Points.run_command Points.run_commands poll_range
    from_block deposit_of credit_logs poll_finish poll_deposit_logs run_polls blocks
activity-tally = refl
