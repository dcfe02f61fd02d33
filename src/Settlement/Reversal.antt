-- ===== src/Settlement/Reversal.antt =====
-- src/capabilities/fintech/dana/OrderSettlementStore.ts: `recordRefund`, `recordCancel`, `clear`.
pub mod Laws
use sera_core.Prelude.{ℕ, String, Bool, true, false, Option, none, some, []}
use sera_core.Settlement.Store.{
  Status, Outcome, done, waiting, rejected, RefundDetails, CancelDetails, OrderSettlementRecord,
  OrderSettlementStore, dana, pending, failed, refunded, cancelled, put_record, record_settlement,
  find_settlement_by_reference,
}

-- the parameter `refundStatus`: an outcome, or the old flag `isPending`
pub data RefundStatus : Type 0 where
  outcome : Outcome → RefundStatus
  is_pending : Bool → RefundStatus

unfoldable pub normalized : RefundStatus → Outcome
normalized (outcome o) = o
normalized (is_pending true) = waiting
normalized (is_pending false) = done

unfoldable pub after_refund : Outcome → Status → Status
after_refund done old = refunded
after_refund waiting old = pending
after_refund rejected old = old

unfoldable pub refund :
    ℕ → RefundDetails → RefundStatus → OrderSettlementRecord → OrderSettlementRecord
refund now details status rec = record rec {
  status = after_refund (normalized status) rec.status;
  refund_details =
      some (record details { status = some (normalized status); refunded_at = some now });
  last_attempt_at = some now;
}

unfoldable pub record_refund :
    ℕ
    → String
    → RefundDetails
    → RefundStatus
    → OrderSettlementStore
    → Option OrderSettlementRecord × OrderSettlementStore
record_refund now reference details status s = elim (find_settlement_by_reference reference s) [
  | none ↦ (none, s)
  | some rec ↦ (some (refund now details status rec), put_record s (refund now details status rec))
]

unfoldable pub after_cancel : Outcome → Status → Status
after_cancel done old = cancelled
after_cancel waiting old = pending
after_cancel rejected old = old

unfoldable pub cancel : ℕ → CancelDetails → Outcome → OrderSettlementRecord → OrderSettlementRecord
cancel now details status rec = record rec {
  status = after_cancel status rec.status;
  cancel_details = some (record details { status = some status; cancelled_at = some now });
  last_attempt_at = some now;
}

-- the record of an order that was not tracked before its cancellation
unfoldable pub placeholder : ℕ → String → Outcome → OrderSettlementRecord
placeholder now reference status = record {
  order_id = reference;
  store_id = "DEFAULT";
  store_name = "Platform Store";
  gross_amount = 0;
  platform_fee = 0;
  net_payout = 0;
  payout_method = dana;
  destination = "N/A";
  status = after_cancel status failed;
  partner_reference_no = some reference;
  reference_no = none;
  error = none;
  settled_at = now;
  attempts = none;
  last_attempt_at = none;
  refund_details = none;
  cancel_details = none;
}

-- the lookup, with the placeholder recorded where it finds nothing
unfoldable pub tracked : ℕ → String → Outcome → OrderSettlementStore → OrderSettlementStore
tracked now reference status s = elim (find_settlement_by_reference reference s) [
  | none ↦ record_settlement now (placeholder now reference status) s
  | some rec ↦ s
]

unfoldable pub record_cancel :
    ℕ
    → String
    → CancelDetails
    → Outcome
    → OrderSettlementStore
    → Option OrderSettlementRecord × OrderSettlementStore
record_cancel now reference details status s =
    let s' = tracked now reference status s in
    elim (find_settlement_by_reference reference s') [
      | none ↦ (none, s')
      | some rec ↦
          (some (cancel now details status rec), put_record s' (cancel now details status rec))
    ]

unfoldable pub clear : OrderSettlementStore → OrderSettlementStore
clear s = record s { records = [] }
