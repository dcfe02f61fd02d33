-- ===== src/Settlement/Coordinator/Answer.antt =====
-- `settleStoreOrder` from its `await` on, the whole of it, and `retryFailedSettlements`.
use Prim.Native.String
use sera_core.Prelude.{
  ℕ, String, Bool, true, false, not, ◌||◌, ◌&&◌, Option, none, some, List, [], ◌∷◌, if◌then◌else◌,
  get_or, is_text,
}
use sera_core.Settlement.Store.{
  dana, bank, Status, success, failed, pending, OrderSettlementRecord, OrderSettlementStore,
  has_been_settled, record_settlement, get_failed_settlements,
}
use sera_core.Settlement.Request.{
  StoreProfile, StoreSettlementParams, BankDetails, StoreSettlementResult, ResultStatus, settled,
  in_progress, not_settled, no_flags, Flags, BalanceRequest, BalanceAnswer, BankAnswer, Provider,
}
use sera_core.Settlement.Payout.{net_payout, platform_fee, ledger_entry}
use sera_core.Settlement.Coordinator.{Started, answered, to_balance, to_bank, begin}

-- `Boolean(answer.flag || answer.responseCode === code)`
abbrev flagged : Option Bool → Option String → String → Option Bool
flagged flag response_code code = some (get_or flag false || is_text response_code code)

abbrev balance_flags : BalanceAnswer → Flags
balance_flags a = record no_flags {
  insufficient_fund = flagged a.flags.insufficient_fund a.response_code "4033814";
  do_not_honor = flagged a.flags.do_not_honor a.response_code "4033805";
  missing_mandatory_field = flagged a.flags.missing_mandatory_field a.response_code "4003802";
  inconsistent = flagged a.flags.inconsistent a.response_code "4043818";
  internal_server_error = flagged a.flags.internal_server_error a.response_code "5003801";
  general_error = flagged a.flags.general_error a.response_code "5003800";
}

unfoldable pub balance_result :
    StoreSettlementParams → BalanceRequest → BalanceAnswer → StoreSettlementResult
balance_result p q a = record {
  success = a.success;
  status = some (if a.success then settled else not_settled);
  flags = balance_flags a;
  response_code = a.response_code;
  response_message = a.response_message;
  order_id = p.order_id;
  store_id = p.store.store_id;
  store_name = p.store.store_name;
  gross_amount = p.gross_amount;
  platform_fee = platform_fee p;
  net_payout = net_payout p;
  payout_method = dana;
  destination = q.customer_number;
  partner_reference_no = some a.partner_reference_no;
  reference_no = a.reference_no;
  is_duplicate = none;
  error = a.error;
}

abbrev is_settled : ResultStatus → Bool
is_settled settled = true
is_settled _ = false

abbrev is_in_progress : ResultStatus → Bool
is_in_progress in_progress = true
is_in_progress _ = false

abbrev is_not_settled : ResultStatus → Bool
is_not_settled not_settled = true
is_not_settled _ = false

-- `isBankSuccess`
abbrev pub bank_success : BankAnswer → Bool
bank_success a =
    is_settled a.status
    || (a.success && not (get_or a.flags.pending false) && not (is_not_settled a.status))

-- `isBankInProgress`
abbrev pub bank_in_progress : BankAnswer → Bool
bank_in_progress a = get_or a.flags.pending false || is_in_progress a.status

abbrev bank_flags : BankAnswer → Flags
bank_flags a = record no_flags {
  pending = some (bank_in_progress a);
  inconsistent = flagged a.flags.inconsistent a.response_code "4044318";
  insufficient_fund = flagged a.flags.insufficient_fund a.response_code "4034314";
  inactive_account = flagged a.flags.inactive_account a.response_code "4034318";
  invalid_field_format = flagged a.flags.invalid_field_format a.response_code "4004301";
  missing_mandatory_field = flagged a.flags.missing_mandatory_field a.response_code "4004302";
  unauthorized = flagged a.flags.unauthorized a.response_code "4014300";
  general_error = flagged a.flags.general_error a.response_code "5004300";
  suspected_fraud = flagged a.flags.suspected_fraud a.response_code "4034303";
}

unfoldable pub bank_result :
    StoreSettlementParams → BankDetails → BankAnswer → StoreSettlementResult
bank_result p b a = record {
  success = bank_success a || bank_in_progress a;
  status =
      some (
        if bank_success a
        then settled
        else if bank_in_progress a
        then in_progress
        else not_settled);
  flags = bank_flags a;
  response_code = a.response_code;
  response_message = a.response_message;
  order_id = p.order_id;
  store_id = p.store.store_id;
  store_name = p.store.store_name;
  gross_amount = p.gross_amount;
  platform_fee = platform_fee p;
  net_payout = net_payout p;
  payout_method = bank;
  destination = Prim.Native.String.◌++◌ b.bank_code (Prim.Native.String.◌++◌ ":" b.account_number);
  partner_reference_no = some a.partner_reference_no;
  reference_no = a.reference_no;
  is_duplicate = none;
  error = a.error;
}

-- the answer is recorded unless the order was settled while it was awaited
unfoldable pub record_unless_settled :
    ℕ → StoreSettlementResult → Status → OrderSettlementStore → OrderSettlementStore
record_unless_settled now r status s =
    if has_been_settled s r.order_id then s else record_settlement now (ledger_entry now r status) s

unfoldable pub balance_status : BalanceAnswer → Status
balance_status a = if a.success then success else failed

unfoldable pub bank_status : BankAnswer → Status
bank_status a = if bank_in_progress a then pending else if bank_success a then success else failed

unfoldable pub finish_balance :
    ℕ
    → StoreSettlementParams
    → BalanceRequest
    → BalanceAnswer
    → OrderSettlementStore
    → StoreSettlementResult × OrderSettlementStore
finish_balance now p q a s =
    let r = balance_result p q a in (r, record_unless_settled now r (balance_status a) s)

unfoldable pub finish_bank :
    ℕ
    → StoreSettlementParams
    → BankDetails
    → BankAnswer
    → OrderSettlementStore
    → StoreSettlementResult × OrderSettlementStore
finish_bank now p b a s =
    let r = bank_result p b a in (r, record_unless_settled now r (bank_status a) s)

-- the rest of the call, run on the provider's answer
unfoldable pub finish :
    Provider
    → ℕ
    → StoreSettlementParams
    → Started
    → OrderSettlementStore
    → StoreSettlementResult × OrderSettlementStore
finish api now p (answered r s') s = (r, s')
finish api now p (to_balance q) s = finish_balance now p q (api.disburse_to_balance q) s
finish api now p (to_bank q b) s = finish_bank now p b (api.disburse_to_bank q) s

-- `settleStoreOrder` with nothing else run while the provider answers
unfoldable pub settle_store_order :
    Provider
    → ℕ
    → StoreSettlementParams
    → OrderSettlementStore
    → StoreSettlementResult × OrderSettlementStore
settle_store_order api now p s = finish api now p (begin now p s) s

abbrev pub retry_params : StoreProfile → OrderSettlementRecord → StoreSettlementParams
retry_params store f = record {
  store = store;
  gross_amount = f.gross_amount;
  order_id = f.order_id;
  custom_fee_percent = none;
}

unfoldable pub retry_each :
    Provider
    → ℕ
    → StoreProfile
    → List OrderSettlementRecord
    → OrderSettlementStore
    → List StoreSettlementResult × OrderSettlementStore
retry_each api now store [] s = ([], s)
retry_each api now store (f ∷ fs) s =
    let (r, s') = settle_store_order api now (retry_params store f) s in
    let (rs, s'') = retry_each api now store fs s' in (r ∷ rs, s'')

-- `retryFailedSettlements`
unfoldable pub retry_failed_settlements :
    Provider
    → ℕ
    → StoreProfile
    → OrderSettlementStore
    → List StoreSettlementResult × OrderSettlementStore
retry_failed_settlements api now store s =
    retry_each api now store (get_failed_settlements (some store.store_id) s) s
