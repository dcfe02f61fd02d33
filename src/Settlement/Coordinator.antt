-- ===== src/Settlement/Coordinator.antt =====
-- src/capabilities/fintech/dana/services/DanaSettlementCoordinator.ts.
-- `settleStoreOrder` is cut at its one `await`: `begin` runs up to the call of the disbursement
-- provider, `finish` (in Answer) runs on its answer.
pub mod Answer
pub mod Idempotence
pub mod Payouts
pub mod Retry
pub mod Interleaving
pub mod Sending
pub mod Transfers
use Prim.Native.String
use sera_core.Prelude.{
  ℕ, ◌+◌, ◌-◌, ◌*◌, ◌/◌, String, Bool, true, false, ◌||◌, Option, none, some, List, [], ◌∷◌, ◌++◌,
  if◌then◌else◌, get_or, is_empty, or_text, nat_eq, leb,
}
use sera_core.Text.{keep_digits, decimal}
use sera_core.Settlement.Store.{
  PayoutMethod, dana, bank, unconfigured, Status, success, failed, OrderSettlementRecord,
  OrderSettlementStore, get_settlement, record_settlement, get_failed_settlements, is_success,
}
use sera_core.Settlement.Request.{
  StoreSettlementInfo, StoreProfile, StoreSettlementParams, BankDetails, StoreSettlementResult,
  ResultStatus, settled, in_progress, not_settled, no_flags, BalanceRequest, BankRequest,
}
use sera_core.Settlement.Payout.{
  method_of, check_existing, net_payout, platform_fee, refusal, ledger_entry,
}

-- what `begin` comes to: an answer with nothing sent, or a transfer that is awaited
pub data Started : Type 0 where
  answered : StoreSettlementResult → OrderSettlementStore → Started
  to_balance : BalanceRequest → Started
  to_bank : BankRequest → BankDetails → Started

unfoldable pub refuse :
    ℕ → StoreSettlementParams → PayoutMethod → String → String → OrderSettlementStore → Started
refuse now p method destination error s =
    let r = refusal p method destination error in
    answered r (record_settlement now (ledger_entry now r failed) s)

abbrev about_store : StoreSettlementParams → String → String
about_store p rest =
    Prim.Native.String.◌++◌ "Store \"" (Prim.Native.String.◌++◌ p.store.store_name rest)

abbrev whatsapp_digits : StoreProfile → String
whatsapp_digits store = keep_digits store.owner_whatsapp

-- `settlement?.danaNumber || (ownerWhatsApp ? digits : '')`
abbrev pub dana_number : StoreProfile → String
dana_number store = elim store.settlement_info [
  | none ↦ whatsapp_digits store
  | some info ↦ or_text info.dana_number (whatsapp_digits store)
]

abbrev pub payout_method : StoreProfile → PayoutMethod
payout_method store =
    method_of store.settlement_info (if is_empty store.owner_whatsapp then unconfigured else dana)

unfoldable pub begin_balance : ℕ → StoreSettlementParams → OrderSettlementStore → Started
begin_balance now p s =
    if is_empty (dana_number p.store)
    then refuse now p dana "None"
        (about_store p "\" has no DANA phone number configured for payout.") s
    else to_balance (record {
      customer_number = dana_number p.store;
      amount = net_payout p;
      fee_amount = platform_fee p;
      partner_reference_no = Prim.Native.String.◌++◌ "PAYOUT-" p.order_id;
      fund_type = "AGENT_TOPUP_FOR_USER_SETTLE";
    })

-- the bank details, if both parts are there
abbrev pub bank_details : StoreProfile → Option BankDetails
bank_details store = elim store.settlement_info [
  | none ↦ none
  | some info ↦ elim info.bank_details [
    | none ↦ none
    | some b ↦ if is_empty b.account_number || is_empty b.bank_code then none else some b
  ]
]

unfoldable pub begin_bank : ℕ → StoreSettlementParams → OrderSettlementStore → Started
begin_bank now p s = elim (bank_details p.store) [
  | none ↦ refuse now p bank "None" (about_store p "\" has incomplete bank payout details.") s
  | some b ↦
      to_bank
        (record {
          beneficiary_account_number = b.account_number;
          beneficiary_bank_code = b.bank_code;
          amount = net_payout p;
          partner_reference_no = Prim.Native.String.◌++◌ "PAYOUT-BANK-" p.order_id;
          fund_type = "MERCHANT_WITHDRAW_FOR_CORPORATE";
          need_notify = true;
        })
        b
]

unfoldable pub route : PayoutMethod → ℕ → StoreSettlementParams → OrderSettlementStore → Started
route dana now p s = begin_balance now p s
route bank now p s = begin_bank now p s
route unconfigured now p s =
    refuse now p unconfigured "None" (about_store p "\" has no payout method configured.") s

-- `settleStoreOrder` up to its `await`
unfoldable pub begin : ℕ → StoreSettlementParams → OrderSettlementStore → Started
begin now p s = elim (check_existing p (get_settlement s p.order_id)) [
  | some r ↦ answered r s
  | none ↦
      if leb (net_payout p) 0
      then refuse now p (method_of p.store.settlement_info unconfigured) "N/A"
          "Net payout amount must be greater than zero." s
      else route (payout_method p.store) now p s
]
