-- ===== src/Billing/Service.antt =====
-- src/server/billing/SubscriptionService.ts, in the units of the ledger: a credit is fifty, a USDC
-- a million.
pub mod Accounts
pub mod Restart
use sera_core.Prelude.{
  ℕ, ◌+◌, ◌*◌, String, Bool, true, false, Option, none, some, ◌==◌, if◌then◌else◌, is_some, leb,
  ltb, nat_eq,
}
use sera_core.Text.{to_lower}
use sera_core.Billing.Ledger.{
  SubscriptionEntry, SubscriptionLedger, get_entry, credit, debit_credits, has_credit,
}

abbrev pub usdc : ℕ
usdc = 1000000

-- a number of credits in the unit of the ledger
abbrev pub credits_of : ℕ → ℕ
credits_of n = 50 * n

-- 200,000 credits for a USDC are ten units for a millionth; the bonuses are 20%, 30% and 50%
unfoldable pub calculate_tokens : ℕ → ℕ
calculate_tokens amount =
    if leb (20 * usdc) amount
    then 15 * amount
    else if leb (10 * usdc) amount
    then 13 * amount
    else if leb (5 * usdc) amount
    then 12 * amount
    else 10 * amount

-- `none` is the error thrown below one USDC
unfoldable pub record_top_up : ℕ → String → ℕ → SubscriptionLedger → Option ℕ × SubscriptionLedger
record_top_up now address amount s =
    if ltb amount usdc
    then (none, s)
    else (let (entry, s') = credit now address (calculate_tokens amount) amount s in
        (some entry.agent_credits, s'))

abbrev is_dev : String → Bool
is_dev address = to_lower address == "dev"

unfoldable pub has_active_entitlement : String → SubscriptionLedger → Bool
has_active_entitlement address s = if is_dev address then true else has_credit address s

unfoldable pub consume_credits : ℕ → String → ℕ → SubscriptionLedger → Bool × SubscriptionLedger
consume_credits now address amount s =
    if is_dev address then (true, s) else debit_credits now address amount s

unfoldable pub add_credits_directly : ℕ → String → ℕ → SubscriptionLedger → SubscriptionLedger
add_credits_directly now address amount s =
    if nat_eq amount 0 then s else (credit now address amount 0 s).1

unfoldable pub has_entry : String → SubscriptionLedger → Bool
has_entry address s = if is_dev address then true else is_some (get_entry address s)

pub data Balance : Type 0 where
  infinite : Balance
  finite : ℕ → Balance

unfoldable pub get_agent_credits : String → SubscriptionLedger → Balance
get_agent_credits address s =
    if is_dev address
    then infinite
    else elim (get_entry address s) [ none ↦ finite 0 | some e ↦ finite e.agent_credits ]

unfoldable pub get_remaining_periods : String → SubscriptionLedger → Balance
get_remaining_periods address s = elim (get_agent_credits address s) [
  | infinite ↦ infinite
  | finite n ↦ finite (if ltb 0 n then 1 else 0)
]

unfoldable pub deduct_period : String → SubscriptionLedger → Bool
deduct_period address s = if is_dev address then true else has_active_entitlement address s
