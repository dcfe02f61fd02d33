-- ===== src/Settlement/Ledger/Restart.antt =====
-- A restart at any point of a history of operations gives back the ledger.
use sera_core.Prelude.{
  ℕ, String, some, List, [], ◌∷◌, is_empty, ◌≡◌, false, true, refl, All, Bool-cases, inl, inr,
  Option-cases, leb,
}
use sera_core.Settlement.Store.{
  Status, OrderSettlementStore, OrderSettlementRecord, open_store, failed, PayoutMethod, dana, bank,
  unconfigured, has_been_settled, get_settlement, get_failed_settlements,
}
use sera_core.Settlement.Store.Durable.{
  IsDurable, open_store-file, IsNamed, record_settlement-IsDurable, update-IsDurable,
  failed-IsNamed,
}
use sera_core.Settlement.Reversal.Laws.{refund-IsDurable, cancel-IsDurable}
use sera_core.Settlement.Request.{
  Provider, StoreSettlementParams, StoreSettlementResult, StoreProfile,
}
use sera_core.Settlement.Payout.{ledger_entry, refusal, check_existing, net_payout}
use sera_core.Settlement.Coordinator.{
  Started, answered, to_balance, to_bank, begin, begin_balance, begin_bank, refuse, route,
  dana_number, bank_details,
}
use sera_core.Settlement.Coordinator.Answer.{
  settle_store_order, finish, finish_balance, finish_bank, balance_result, bank_result,
  record_unless_settled, retry_each, retry_params, retry_failed_settlements,
}
use sera_core.Settlement.Coordinator.Idempotence.{after}
use sera_core.Settlement.Ledger.{
  Operation, settle, retry, update, refund, cancel, perform, perform_all, IsNaming,
}

module _ (now : ℕ) (p : StoreSettlementParams) (s : OrderSettlementStore)
    (named : is_empty p.order_id ≡ false) (w : IsDurable s) where
  refuse-IsDurable : (m : PayoutMethod) (d e : String) → IsDurable (after s (refuse now p m d e s))
  unfolding refuse refusal ledger_entry
  refuse-IsDurable m d e =
      record_settlement-IsDurable now (ledger_entry now (refusal p m d e) failed) s named w

  route-IsDurable : (m : PayoutMethod) → IsDurable (after s (route m now p s))
  unfolding route begin_balance begin_bank
  route-IsDurable dana = elim (Bool-cases (is_empty (dana_number p.store))) [
    | inl e ↦ rw e (refuse-IsDurable _ _ _)
    | inr e ↦ rw e w
  ]
  route-IsDurable bank = elim (Option-cases (bank_details p.store)) [
    | inl e ↦ rw (e, begin_bank) (refuse-IsDurable _ _ _)
    | inr (b, e) ↦ rw (e, begin_bank) w
  ]
  route-IsDurable unconfigured = refuse-IsDurable _ _ _

  begin-IsDurable : IsDurable (after s (begin now p s))
  unfolding begin
  begin-IsDurable = elim (Option-cases (check_existing p (get_settlement s p.order_id))) [
    | inr (r, e) ↦ rw (e, begin) w
    | inl e ↦
        rw (e, begin)
          (elim (Bool-cases (leb (net_payout p) 0)) [
            | inl z ↦ rw z (refuse-IsDurable _ _ _)
            | inr z ↦ rw z (route-IsDurable _)
          ])
  ]

  unless-IsDurable :
      (r : StoreSettlementResult) (st : Status)
      → r.order_id ≡ p.order_id
      → IsDurable (record_unless_settled now r st s)
  unfolding record_unless_settled ledger_entry
  unless-IsDurable r st e = elim (Bool-cases (has_been_settled s r.order_id)) [
    | inl h ↦ rw h w
    | inr h ↦ rw h (record_settlement-IsDurable now (ledger_entry now r st) s (rw e named) w)
  ]

  finish-IsDurable :
      (api : Provider) (t : Started) → IsDurable (after s t) → IsDurable (finish api now p t s).1
  unfolding finish finish_balance finish_bank balance_result bank_result
  finish-IsDurable api (answered r s') h = h
  finish-IsDurable api (to_balance q) h =
      unless-IsDurable (balance_result p q (api.disburse_to_balance q)) _ refl
  finish-IsDurable api (to_bank q b) h =
      unless-IsDurable (bank_result p b (api.disburse_to_bank q)) _ refl

  settle-IsDurable : (api : Provider) → IsDurable (settle_store_order api now p s).1
  unfolding settle_store_order
  settle-IsDurable api = finish-IsDurable api (begin now p s) begin-IsDurable

retry_each-IsDurable :
    (api : Provider) (now : ℕ) (store : StoreProfile) (fs : List OrderSettlementRecord)
    (s : OrderSettlementStore)
    → All IsNamed fs
    → IsDurable s
    → IsDurable (retry_each api now store fs s).1
unfolding retry_each
retry_each-IsDurable api now store [] s n w = w
retry_each-IsDurable api now store (f ∷ fs) s n w =
    retry_each-IsDurable api now store fs (settle_store_order api now (retry_params store f) s).1
      n.1 (settle-IsDurable now (retry_params store f) s n.0 w api)

pub perform-IsDurable :
    (now : ℕ) (o : Operation) (s : OrderSettlementStore)
    → IsNaming o
    → IsDurable s
    → IsDurable (perform now o s)
unfolding perform retry_failed_settlements
perform-IsDurable now (settle api p) s n w = settle-IsDurable now p s n w api
perform-IsDurable now (retry api store) s n w =
    retry_each-IsDurable api now store (get_failed_settlements (some store.store_id) s) s
      (failed-IsNamed (some store.store_id) s w) w
perform-IsDurable now (update reference status details) s n w =
    update-IsDurable now reference status details s w
perform-IsDurable now (refund reference details status) s n w =
    refund-IsDurable now reference details status s w
perform-IsDurable now (cancel reference details status) s n w =
    cancel-IsDurable now reference details status s n w

perform_all-IsDurable :
    (os : List (ℕ × Operation)) (s : OrderSettlementStore)
    → All (λ o. IsNaming o.1) os
    → IsDurable s
    → IsDurable (perform_all os s)
unfolding perform_all
perform_all-IsDurable [] s n w = w
perform_all-IsDurable ((now, o) ∷ os) s n w =
    perform_all-IsDurable os (perform now o s) n.1 (perform-IsDurable now o s n.0 w)

-- Where the store writes its file and every operation that may create a record names an order: a
-- process that is restarted after any history of settlements, retries, status updates, refunds and
-- cancellations reads back the ledger that was in memory, records and their order included.
pub restart_lem :
    (os : List (ℕ × Operation)) (s : OrderSettlementStore)
    → All (λ o. IsNaming o.1) os
    → IsDurable s
    → open_store true true (perform_all os s).file ≡ perform_all os s
restart_lem os s n w = open_store-file (perform_all os s) (perform_all-IsDurable os s n w)
