-- ===== src/Billing/Treasury.antt =====
-- src/server/billing/TreasuryDepositWatcher.ts. The chain is an argument: `latest` is what
-- `getBlockNumber` answers and `logs` what `getLogs` answers for a range of blocks, `none` where
-- they reject. A poll is two steps, since it waits for the answers; the timer starts one every
-- fifteen seconds, whether or not the last has ended. Amounts are in millionths of a USDC, which
-- `formatUnits(value, 6)` makes of the token's unit. Of the configuration, the address of the
-- treasury is modelled; the calls of `onDepositDetected` are the list that `credit_logs` returns.
pub mod Deposits
use sera_core.Prelude.{
  ℕ, ◌+◌, ◌-◌, String, Bool, true, false, ◌||◌, not, Option, none, some, List, [], ◌∷◌, ◌==◌,
  if◌then◌else◌, get_or, leb, ltb, nat_eq, or_text, truthy,
}
use sera_core.Text.{to_lower}
use sera_core.Billing.Ledger.{SubscriptionLedger}
use sera_core.Billing.Service.{record_top_up}

pub record TreasuryDepositWatcherConfig : Type 0 where
  pub treasury_address : Option String

pub record TreasuryDepositWatcher : Type 0 where
  pub is_running : Bool
  pub has_timer : Bool
  pub last_processed_block : ℕ
  pub treasury : String

abbrev pub zero_address : String
zero_address = "0x0000000000000000000000000000000000000000"

-- `default` is DEFAULT_TREASURY_ADDRESS, which the environment sets
unfoldable pub new_watcher : String → TreasuryDepositWatcherConfig → TreasuryDepositWatcher
new_watcher default config = record {
  is_running = false;
  has_timer = false;
  last_processed_block = 0;
  treasury = to_lower (or_text config.treasury_address default);
}

unfoldable pub start : Option ℕ → TreasuryDepositWatcher → TreasuryDepositWatcher
start latest w =
    if w.is_running
    then w
    else record w { is_running = true; has_timer = true; last_processed_block = get_or latest 0 }

unfoldable pub stop : TreasuryDepositWatcher → TreasuryDepositWatcher
stop w = if w.is_running then record w { is_running = false; has_timer = false } else w

abbrev pub max_range : ℕ
max_range = 9000

unfoldable pub from_block : ℕ → TreasuryDepositWatcher → ℕ
from_block latest w =
    if ltb max_range (latest - w.last_processed_block)
    then latest - max_range
    else w.last_processed_block + 1

-- up to the request for the logs: the range that it names, `none` where the poll has ended
unfoldable pub poll_range : Option ℕ → TreasuryDepositWatcher → Option (ℕ × ℕ)
poll_range none w = none
poll_range (some latest) w =
    if not w.is_running || w.treasury == zero_address
    then none
    else if leb latest w.last_processed_block
    then none
    else some (from_block latest w, latest)

-- the arguments of a Transfer event, which may be absent
pub record TransferLog : Type 0 where
  pub sender : Option String
  pub value : Option ℕ

-- a `bigint` is true unless it is 0, a text unless it is empty
unfoldable pub deposit_of : TransferLog → Option (String × ℕ)
deposit_of log = elim (truthy log.sender) [
  | none ↦ none
  | some sender ↦ elim log.value [
    | none ↦ none
    | some value ↦ if nat_eq value 0 then none else some (to_lower sender, value)
  ]
]

-- the loop over the logs; the list is of the calls of `onDepositDetected`
unfoldable pub credit_logs :
    ℕ → List TransferLog → SubscriptionLedger → List (String × ℕ) × SubscriptionLedger
credit_logs now [] s = ([], s)
credit_logs now (log ∷ logs) s = elim (deposit_of log) [
  | none ↦ credit_logs now logs s
  | some (sender, amount) ↦
      let (credits, s') = record_top_up now sender amount s in
      let (detected, s'') = credit_logs now logs s' in
      (elim credits [ none ↦ detected | some n ↦ (sender, n) ∷ detected ], s'')
]

-- from the answer to the end of the poll
unfoldable pub poll_finish :
    ℕ
    → ℕ
    → Option (List TransferLog)
    → TreasuryDepositWatcher
    → SubscriptionLedger
    → TreasuryDepositWatcher × SubscriptionLedger
poll_finish now latest none w s = (w, s)
poll_finish now latest (some logs) w s =
    (record w { last_processed_block = latest }, (credit_logs now logs s).1)

-- a poll that no other overlaps
unfoldable pub poll_deposit_logs :
    ℕ
    → Option ℕ
    → (ℕ → ℕ → Option (List TransferLog))
    → TreasuryDepositWatcher
    → SubscriptionLedger
    → TreasuryDepositWatcher × SubscriptionLedger
poll_deposit_logs now latest logs w s = elim (poll_range latest w) [
  | none ↦ (w, s)
  | some (from, to) ↦ poll_finish now to (logs from to) w s
]

unfoldable pub process_deposit : ℕ → String → ℕ → SubscriptionLedger → Option ℕ × SubscriptionLedger
process_deposit now sender amount s = record_top_up now sender amount s
