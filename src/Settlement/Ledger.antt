-- ===== src/Settlement/Ledger.antt =====
-- The ledger as its callers use it: a sequence of settlements, status updates, refunds and
-- cancellations on one store.
pub mod Restart
use sera_core.Prelude.{ℕ, String, Option, List, [], ◌∷◌, is_empty, ◌≡◌, false}
use sera_core.Settlement.Store.{
  Status, Outcome, StatusDetails, RefundDetails, CancelDetails, OrderSettlementStore,
  update_settlement_status,
}
use sera_core.Settlement.Reversal.{RefundStatus, record_refund, record_cancel}
use sera_core.Settlement.Request.{Provider, StoreSettlementParams, StoreProfile}
use sera_core.Settlement.Coordinator.Answer.{settle_store_order, retry_failed_settlements}

pub data Operation : Type 0 where
  settle : Provider → StoreSettlementParams → Operation
  retry : Provider → StoreProfile → Operation
  update : String → Status → StatusDetails → Operation
  refund : String → RefundDetails → RefundStatus → Operation
  cancel : String → CancelDetails → Outcome → Operation

unfoldable pub perform : ℕ → Operation → OrderSettlementStore → OrderSettlementStore
perform now (settle api p) s = (settle_store_order api now p s).1
perform now (retry api store) s = (retry_failed_settlements api now store s).1
perform now (update reference status details) s =
    (update_settlement_status now reference status details s).1
perform now (refund reference details status) s = (record_refund now reference details status s).1
perform now (cancel reference details status) s = (record_cancel now reference details status s).1

-- each operation comes with the clock reading at which it runs
unfoldable pub perform_all : List (ℕ × Operation) → OrderSettlementStore → OrderSettlementStore
perform_all [] s = s
perform_all ((now, o) ∷ os) s = perform_all os (perform now o s)

-- the operation names an order where it may create a record
abbrev pub IsNaming : Operation → Type 0
IsNaming (settle api p) = is_empty p.order_id ≡ false
IsNaming (cancel reference details status) = is_empty reference ≡ false
IsNaming _ = Unit
