-- ===== src/Settlement/Coordinator/Payouts.antt =====
-- How many transfers for an order have an answer that is a success, whatever requests come in.
use sera_core.Prelude.{
  ℕ, ◌+◌, ◌≤◌, String, Bool, true, false, ◌&&◌, some, List, [], ◌∷◌, if◌then◌else◌, ◌≡◌, refl,
  arith, ◌==◌, eq_iff, Bool-cases, inl, inr, All,
}
use sera_core.Settlement.Store.{
  OrderSettlementRecord, OrderSettlementStore, Status, is_success, get_settlement, has_been_settled,
}
use sera_core.Settlement.Store.Lookup.{has_been_settled-get, settled-record_settlement}
use sera_core.Settlement.Request.{
  StoreSettlementParams, Provider, StoreSettlementResult, BankRequest,
}
use sera_core.Settlement.Payout.{ledger_entry}
use sera_core.Settlement.Coordinator.{Started, answered, to_balance, to_bank, begin}
use sera_core.Settlement.Coordinator.Answer.{
  finish, finish_balance, finish_bank, record_unless_settled, settle_store_order, balance_status,
  bank_status, balance_result, bank_result, bank_success, bank_in_progress,
}
use sera_core.Settlement.Coordinator.Idempotence.{begin-settled, settle-keeps_settled}

-- one call: the provider that answers it, the clock, and what is asked
pub record Call : Type 0 where
  pub api : Provider
  pub now : ℕ
  pub params : StoreSettlementParams

abbrev pub run_call : Call → OrderSettlementStore → OrderSettlementStore
run_call c s = (settle_store_order c.api c.now c.params s).1

-- whether a transfer was sent and its answer is one that the code takes for a success: of a bank,
-- `isBankSuccess`, also where the ledger then says PENDING
abbrev pub transfer_done : Provider → Started → Bool
transfer_done api (answered r s) = false
transfer_done api (to_balance q) = (api.disburse_to_balance q).success
transfer_done api (to_bank q b) = bank_success (api.disburse_to_bank q)

-- no answer of the bank's is a success and in progress at once
abbrev pub IsClear : Provider → Type 0
IsClear api =
    (q : BankRequest)
    → bank_success (api.disburse_to_bank q) ≡ true
    → bank_in_progress (api.disburse_to_bank q) ≡ false

abbrev pub AllClear : List Call → Type 0
AllClear cs = All (λ c. IsClear c.api) cs

abbrev pub pays : String → Call → OrderSettlementStore → Bool
pays order_id c s = c.params.order_id == order_id && transfer_done c.api (begin c.now c.params s)

-- the transfers for an order whose answer is a success, over a sequence of calls
unfoldable pub payouts : String → List Call → OrderSettlementStore → ℕ
payouts order_id [] s = 0
payouts order_id (c ∷ cs) s =
    let later = payouts order_id cs (run_call c s) in if pays order_id c s then later + 1 else later

settled_record :
    (s : OrderSettlementStore) (j : String)
    → has_been_settled s j ≡ true
    → (e : OrderSettlementRecord) × (get_settlement s j ≡ some e) × (is_success e.status ≡ true)
settled_record s j h = ground (arith, has_been_settled-get s j)

settled_by_record :
    (s : OrderSettlementStore) (j : String) (e : OrderSettlementRecord)
    → get_settlement s j ≡ some e
    → is_success e.status ≡ true
    → has_been_settled s j ≡ true
settled_by_record s j e g h = ground (arith, has_been_settled-get s j)

run_call-settled :
    (c : Call) (s : OrderSettlementStore) (j : String)
    → has_been_settled s j ≡ true
    → has_been_settled (run_call c s) j ≡ true
run_call-settled c s j h =
    let (e, g, k) = settled_record s j h in
    settled_by_record (run_call c s) j e (settle-keeps_settled c.api c.now c.params s j e g k) k

-- nothing is sent for a settled order
not-pays-settled :
    (c : Call) (s : OrderSettlementStore) (j : String)
    → has_been_settled s j ≡ true
    → pays j c s ≡ false
not-pays-settled c s j h = elim (Bool-cases (c.params.order_id == j)) [
  | inr other ↦ rw other refl
  | inl same ↦
      let (e, g, k) = settled_record s j h in
      let g' : get_settlement s c.params.order_id ≡ some e = rw ((eq_iff _ _).0 same) g in
      rw (begin-settled c.now c.params s e g' k) (rw same refl)
]

-- a transfer that is done is in the ledger
record_unless_settled-success :
    (now : ℕ) (r : StoreSettlementResult) (st : Status) (s : OrderSettlementStore)
    → is_success st ≡ true
    → has_been_settled (record_unless_settled now r st s) r.order_id ≡ true
unfolding record_unless_settled ledger_entry
record_unless_settled-success now r st s h = ground (
  arith,
  settled-record_settlement now (ledger_entry now r st) s r.order_id,
  eq_iff r.order_id r.order_id,
)

finish-settles :
    (api : Provider) (now : ℕ) (p : StoreSettlementParams) (t : Started) (s : OrderSettlementStore)
    → IsClear api
    → transfer_done api t ≡ true
    → has_been_settled (finish api now p t s).1 p.order_id ≡ true
unfolding finish finish_balance finish_bank balance_result bank_result balance_status bank_status
finish-settles api now p (answered r s') s clear h = cc
finish-settles api now p (to_balance q) s clear h =
    record_unless_settled-success now (balance_result p q (api.disburse_to_balance q)) _ s
      (rw (h, balance_status) refl)
finish-settles api now p (to_bank q b) s clear h =
    record_unless_settled-success now (bank_result p b (api.disburse_to_bank q)) _ s
      (rw (clear q h, h, bank_status) refl)

pays-settles :
    (c : Call) (s : OrderSettlementStore) (j : String)
    → IsClear c.api
    → pays j c s ≡ true
    → has_been_settled (run_call c s) j ≡ true
unfolding settle_store_order
pays-settles c s j clear h = elim (Bool-cases (c.params.order_id == j)) [
  | inr other ↦ cc
  | inl same ↦
      rw (← (eq_iff _ _).0 same)
        (finish-settles c.api c.now c.params (begin c.now c.params s) s clear (ground arith))
]

payouts-settled :
    (j : String) (cs : List Call) (s : OrderSettlementStore)
    → has_been_settled s j ≡ true
    → payouts j cs s ≡ 0
unfolding payouts
payouts-settled j [] s h = refl
payouts-settled j (c ∷ cs) s h =
    rw (not-pays-settled c s j h) (payouts-settled j cs (run_call c s) (run_call-settled c s j h))

at_most_one :
    (j : String) (cs : List Call) (s : OrderSettlementStore) → AllClear cs → payouts j cs s ≤ 1
unfolding payouts
at_most_one j [] s clear = omega arith
at_most_one j (c ∷ cs) s clear = elim (Bool-cases (pays j c s)) [
  | inl h ↦ rw h (omega (arith, payouts-settled j cs (run_call c s) (pays-settles c s j clear.0 h)))
  | inr h ↦ rw h (at_most_one j cs (run_call c s) clear.1)
]

-- Over any sequence of `settleStoreOrder` calls, each run to its end before the next, from any ledger,
-- with providers that give no bank answer that is a success and in progress at once: the transfers
-- whose answer is a success for an order, and one more if the ledger has the order as settled at the
-- start, are at most one.
pub payouts-le-one :
    (j : String) (cs : List Call) (s : OrderSettlementStore)
    → AllClear cs
    → payouts j cs s + (if has_been_settled s j then 1 else 0) ≤ 1
payouts-le-one j cs s clear = ground (arith, at_most_one j cs s clear, payouts-settled j cs s)
