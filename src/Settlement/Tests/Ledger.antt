-- ===== src/Settlement/Tests/Ledger.antt =====
-- Histories of the ledger, retries and the bank's answers, run.
use sera_core.Prelude.{ℕ, ◌≡◌, refl, true, none, some, List, [], ◌∷◌, length}
use sera_core.Settlement.Store.{
  OrderSettlementStore, done, CancelDetails, get_settlement, has_been_settled, open_store,
  get_failed_settlements,
}
use sera_core.Settlement.Store.Durable.{IsDurable, empty_store, empty_store-IsDurable}
use sera_core.Settlement.Request.{StoreProfile}
use sera_core.Settlement.Coordinator.Answer.{retry_failed_settlements}
use sera_core.Settlement.Coordinator.Retry.{retry-keeps}
use sera_core.Settlement.Ledger.{Operation, settle, cancel as cancel_op, perform, perform_all}
use sera_core.Settlement.Ledger.Restart.{restart_lem, perform-IsDurable}
use sera_core.Settlement.Classifier.{classify}
use sera_core.Settlement.Tests.{code, warung, toko, order, api, settled_o1}

abbrev history : List (ℕ × Operation)
history =
    (5, settle api (order warung "o1" 50000))
    ∷ (6, settle api (order toko "o2" 90000))
    ∷ (
      7,
      cancel_op "o9"
          (record {
            cancel_time = none;
            reason = some "stock";
            cancelled_at = none;
            status = none;
            error = none;
          })
          done,
    )
    ∷ []

restart_lem_example :
    open_store true true (perform_all history empty_store).file ≡ perform_all history empty_store
restart_lem_example =
    restart_lem history empty_store (refl, (refl, (refl, tt))) empty_store-IsDurable

abbrev out_of_stock : CancelDetails
out_of_stock = record {
  cancel_time = none;
  reason = some "stock";
  cancelled_at = none;
  status = none;
  error = none;
}

-- a store with no destination: the settlement fails and can be retried
abbrev unreachable : StoreProfile
unreachable = record {
  store_id = "warung";
  store_name = "Warung";
  owner_whatsapp = "";
  settlement_info = none;
}

abbrev with_failure : OrderSettlementStore
with_failure =
    perform 6 (settle api (order unreachable "o3" 20000))
      (perform 5 (settle api (order warung "o1" 50000)) empty_store)

retry_pays : has_been_settled (retry_failed_settlements api 8 warung with_failure).1 "o3" ≡ true
unfolding code
retry_pays = refl

with_failure_o1 : get_settlement with_failure "o1" ≡ some settled_o1
unfolding code
with_failure_o1 = refl

with_failure-IsDurable : IsDurable with_failure
with_failure-IsDurable = perform-IsDurable 6 (settle api (order unreachable "o3" 20000)) _ refl (
    perform-IsDurable 5 (settle api (order warung "o1" 50000)) empty_store refl
      empty_store-IsDurable)

retry-keeps_example :
    (get_settlement (retry_failed_settlements api 8 warung with_failure).1 "o1" ≡ some settled_o1)
    × (length (retry_failed_settlements api 8 warung with_failure).0
        ≡ length (get_failed_settlements (some "warung") with_failure))
retry-keeps_example =
    retry-keeps api 8 warung with_failure "o1" settled_o1 with_failure-IsDurable with_failure_o1
      refl

refused_funds :
    (classify 403 (some "4033814") (some "Insufficient Funds")).reason_code
    ≡ some "INSUFFICIENT_FUNDS"
unfolding code
refused_funds = refl
