-- ===== src/Settlement/Payout.antt =====
-- src/capabilities/fintech/dana/services/DanaSettlementCoordinator.ts: the amounts of a payout, the
-- early answers about an order that has a record, and the ledger entry of an answer.
-- Amounts are whole rupiah and a percentage is a number of hundredths (2% is 200), which the program
-- holds as a double.
pub mod Fees
use Prim.Native.String
use sera_core.Prelude.{
  ℕ, ◌-◌, String, Bool, true, false, Option, none, some, if◌then◌else◌, get_or, nat_eq,
}
use sera_core.Text.{decimal}
use sera_core.Settlement.Double.{double_of, percent_rate, times, math_round}
use sera_core.Settlement.Store.{
  PayoutMethod, bank, unconfigured, Status, OrderSettlementRecord, is_success,
}
use sera_core.Settlement.Request.{
  StoreSettlementInfo, StoreSettlementParams, StoreSettlementResult, settled, not_settled, no_flags,
}

-- `Math.round(gross * (percent / 100))`, in the arithmetic of doubles
unfoldable pub fee_of : ℕ → ℕ → ℕ
fee_of percent gross = math_round (times gross (percent_rate (double_of percent 100)))

-- `Math.max(0, gross - fee)`: `-` stops at 0
unfoldable pub net_of : ℕ → ℕ → ℕ
net_of gross fee = gross - fee

abbrev pub default_percent : ℕ
default_percent = 200

-- `settlement?.platformFeePercent ?? 2.0`
abbrev pub store_percent : Option StoreSettlementInfo → ℕ
store_percent none = default_percent
store_percent (some info) = get_or info.platform_fee_percent default_percent

abbrev pub method_of : Option StoreSettlementInfo → PayoutMethod → PayoutMethod
method_of none d = d
method_of (some info) d = info.payout_method

abbrev is_bank : PayoutMethod → Bool
is_bank bank = true
is_bank _ = false

abbrev inconsistent_error : String → ℕ → ℕ → String
inconsistent_error order_id recorded attempted =
    Prim.Native.String.◌++◌ "Inconsistent Request: duplicate transfer for order " (
      Prim.Native.String.◌++◌ order_id (
        Prim.Native.String.◌++◌ " with mismatched gross amount (recorded: Rp " (
          Prim.Native.String.◌++◌ (decimal recorded) (
            Prim.Native.String.◌++◌ ", attempted: Rp " (
              Prim.Native.String.◌++◌ (decimal attempted)
                "). Duplicate transfer rejected. Please retry transaction properly.")))))

-- the first block of the check: the recorded gross amount differs
unfoldable pub inconsistent_result :
    StoreSettlementParams → OrderSettlementRecord → StoreSettlementResult
inconsistent_result p existing =
    let percent = store_percent p.store.settlement_info in
    let fee = fee_of percent p.gross_amount in
    record {
      success = false;
      status = some not_settled;
      flags = record no_flags { inconsistent = some true };
      response_code = some (
          if is_bank (method_of p.store.settlement_info existing.payout_method)
          then "4044318"
          else "4043818");
      response_message = some "Inconsistent Request";
      order_id = p.order_id;
      store_id = p.store.store_id;
      store_name = p.store.store_name;
      gross_amount = p.gross_amount;
      platform_fee = fee;
      net_payout = net_of p.gross_amount fee;
      payout_method = method_of p.store.settlement_info unconfigured;
      destination = existing.destination;
      partner_reference_no = existing.partner_reference_no;
      reference_no = none;
      is_duplicate = none;
      error = some (inconsistent_error p.order_id existing.gross_amount p.gross_amount);
    }

-- the second block: the order is settled already
unfoldable pub duplicate_result : String → OrderSettlementRecord → StoreSettlementResult
duplicate_result order_id existing = record {
  success = true;
  status = some settled;
  flags = no_flags;
  response_code = none;
  response_message = none;
  order_id = order_id;
  store_id = existing.store_id;
  store_name = existing.store_name;
  gross_amount = existing.gross_amount;
  platform_fee = existing.platform_fee;
  net_payout = existing.net_payout;
  payout_method = existing.payout_method;
  destination = existing.destination;
  partner_reference_no = existing.partner_reference_no;
  reference_no = existing.reference_no;
  is_duplicate = some true;
  error = none;
}

-- idempotency and consistency: the early answers about an order that has a record
unfoldable pub check_existing :
    StoreSettlementParams → Option OrderSettlementRecord → Option StoreSettlementResult
check_existing p none = none
check_existing p (some existing) =
    if nat_eq existing.gross_amount p.gross_amount
    then if is_success existing.status then some (duplicate_result p.order_id existing) else none
    else some (inconsistent_result p existing)

-- `params.customFeePercent !== undefined ? … : …`
unfoldable pub percent_of : StoreSettlementParams → ℕ
percent_of p = get_or p.custom_fee_percent (store_percent p.store.settlement_info)

unfoldable pub platform_fee : StoreSettlementParams → ℕ
platform_fee p = fee_of (percent_of p) p.gross_amount

unfoldable pub net_payout : StoreSettlementParams → ℕ
net_payout p = net_of p.gross_amount (platform_fee p)

-- `errRes`: a refusal before any transfer
unfoldable pub refusal :
    StoreSettlementParams → PayoutMethod → String → String → StoreSettlementResult
refusal p method destination error = record {
  success = false;
  status = none;
  flags = no_flags;
  response_code = none;
  response_message = none;
  order_id = p.order_id;
  store_id = p.store.store_id;
  store_name = p.store.store_name;
  gross_amount = p.gross_amount;
  platform_fee = platform_fee p;
  net_payout = net_payout p;
  payout_method = method;
  destination = destination;
  partner_reference_no = none;
  reference_no = none;
  is_duplicate = none;
  error = some error;
}

-- `{ ...result, status, settledAt: Date.now() }`
unfoldable pub ledger_entry : ℕ → StoreSettlementResult → Status → OrderSettlementRecord
ledger_entry now r status = record {
  order_id = r.order_id;
  store_id = r.store_id;
  store_name = r.store_name;
  gross_amount = r.gross_amount;
  platform_fee = r.platform_fee;
  net_payout = r.net_payout;
  payout_method = r.payout_method;
  destination = r.destination;
  status = status;
  partner_reference_no = r.partner_reference_no;
  reference_no = r.reference_no;
  error = r.error;
  settled_at = now;
  attempts = none;
  last_attempt_at = none;
  refund_details = none;
  cancel_details = none;
}
