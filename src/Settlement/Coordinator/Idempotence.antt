-- ===== src/Settlement/Coordinator/Idempotence.antt =====
-- A payout that succeeded is final: nothing is sent for the order again and its record stays.
use sera_core.Prelude.{
  ℕ, String, true, false, some, if◌then◌else◌, ◌≡◌, refl, arith, ◌==◌, eq_iff, Bool-cases, inl, inr,
  nat_eq, Option-cases, is_empty, leb, ◌∙◌,
}
use sera_core.Settlement.Store.{
  PayoutMethod, dana, bank, unconfigured, OrderSettlementRecord, OrderSettlementStore, Status,
  failed, is_success, get_settlement,
}
use sera_core.Settlement.Store.Lookup.{get-record_settlement, has_been_settled-get}
use sera_core.Settlement.Request.{StoreSettlementParams, Provider, StoreSettlementResult}
use sera_core.Settlement.Payout.{
  check_existing, duplicate_result, inconsistent_result, net_payout, ledger_entry, refusal,
}
use sera_core.Settlement.Coordinator.{
  Started, answered, to_balance, to_bank, begin, begin_balance, begin_bank, refuse, route,
  dana_number, bank_details,
}
use sera_core.Settlement.Coordinator.Answer.{
  finish, finish_balance, finish_bank, record_unless_settled, settle_store_order, balance_result,
  bank_result,
}

-- what a call that has begun does to the records of orders that are settled: nothing
check_existing-settled :
    (p : StoreSettlementParams) (e : OrderSettlementRecord)
    → is_success e.status ≡ true
    → check_existing p (some e)
      ≡ some (
          if nat_eq e.gross_amount p.gross_amount
          then duplicate_result p.order_id e
          else inconsistent_result p e)
unfolding check_existing
check_existing-settled p e h = ground arith

-- A settled order is answered at once, from the ledger, and the ledger is not touched.
pub begin-settled :
    (now : ℕ) (p : StoreSettlementParams) (s : OrderSettlementStore) (e : OrderSettlementRecord)
    → get_settlement s p.order_id ≡ some e
    → is_success e.status ≡ true
    → begin now p s
      ≡ answered
          (if nat_eq e.gross_amount p.gross_amount
            then duplicate_result p.order_id e
            else inconsistent_result p e)
          s
unfolding begin
begin-settled now p s e g h = rw (g, begin) (rw (check_existing-settled p e h, begin))

-- the ledger after `begin`
abbrev pub after : OrderSettlementStore → Started → OrderSettlementStore
after s (answered r s') = s'
after s (to_balance q) = s
after s (to_bank q b) = s

module _ (now : ℕ) (p : StoreSettlementParams) (s : OrderSettlementStore) (j : String)
    (other : p.order_id == j ≡ false) where
  refuse-frame :
      (m : PayoutMethod) (d e : String)
      → get_settlement (after s (refuse now p m d e s)) j ≡ get_settlement s j
  unfolding refuse refusal ledger_entry
  refuse-frame m d e =
      ground (arith, get-record_settlement now (ledger_entry now (refusal p m d e) failed) s j)

  begin_balance-frame : get_settlement (after s (begin_balance now p s)) j ≡ get_settlement s j
  unfolding begin_balance
  begin_balance-frame = elim (Bool-cases (is_empty (dana_number p.store))) [
    | inl e ↦ rw e (refuse-frame _ _ _)
    | inr e ↦ rw e refl
  ]

  begin_bank-frame : get_settlement (after s (begin_bank now p s)) j ≡ get_settlement s j
  unfolding begin_bank
  begin_bank-frame = elim (Option-cases (bank_details p.store)) [
    | inl e ↦ rw (e, begin_bank) (refuse-frame _ _ _)
    | inr (b, e) ↦ rw (e, begin_bank) refl
  ]

  route-frame :
      (m : PayoutMethod) → get_settlement (after s (route m now p s)) j ≡ get_settlement s j
  unfolding route
  route-frame dana = begin_balance-frame
  route-frame bank = begin_bank-frame
  route-frame unconfigured = refuse-frame _ _ _

  -- `begin` writes under its own order only.
  pub begin-frame : get_settlement (after s (begin now p s)) j ≡ get_settlement s j
  unfolding begin
  begin-frame = elim (Option-cases (check_existing p (get_settlement s p.order_id))) [
    | inr (r, e) ↦ rw (e, begin) refl
    | inl e ↦
        rw (e, begin)
          (elim (Bool-cases (leb (net_payout p) 0)) [
            | inl z ↦ rw z (refuse-frame _ _ _)
            | inr z ↦ rw z (route-frame _)
          ])
  ]

  -- So does an answer.
  pub record_unless_settled-frame :
      (r : StoreSettlementResult) (st : Status)
      → r.order_id ≡ p.order_id
      → get_settlement (record_unless_settled now r st s) j ≡ get_settlement s j
  unfolding record_unless_settled ledger_entry
  record_unless_settled-frame r st e =
      ground (arith, get-record_settlement now (ledger_entry now r st) s j)

-- Whatever is awaited, an answer leaves the record of a settled order alone.
pub record_unless_settled-keeps :
    (now : ℕ) (r : StoreSettlementResult) (st : Status) (s : OrderSettlementStore) (j : String)
    (e : OrderSettlementRecord)
    → get_settlement s j ≡ some e
    → is_success e.status ≡ true
    → get_settlement (record_unless_settled now r st s) j ≡ some e
unfolding record_unless_settled ledger_entry
record_unless_settled-keeps now r st s j e g h = ground (
  arith,
  get-record_settlement now (ledger_entry now r st) s j,
  has_been_settled-get s r.order_id,
  eq_iff r.order_id j,
)

pub begin-keeps :
    (now : ℕ) (p : StoreSettlementParams) (s : OrderSettlementStore) (j : String)
    (e : OrderSettlementRecord)
    → get_settlement s j ≡ some e
    → is_success e.status ≡ true
    → get_settlement (after s (begin now p s)) j ≡ some e
begin-keeps now p s j e g h = elim (Bool-cases (p.order_id == j)) [
  | inr other ↦ begin-frame now p s j other ∙ g
  | inl same ↦
      let k : get_settlement s p.order_id ≡ some e = rw ((eq_iff _ _).0 same) g in
      rw (begin-settled now p s e k h) g
]

pub finish-keeps :
    (api : Provider) (now : ℕ) (p : StoreSettlementParams) (t : Started) (s : OrderSettlementStore)
    (j : String) (e : OrderSettlementRecord)
    → get_settlement (after s t) j ≡ some e
    → is_success e.status ≡ true
    → get_settlement (finish api now p t s).1 j ≡ some e
unfolding finish finish_balance finish_bank
finish-keeps api now p (answered r s') s j e g h = g
finish-keeps api now p (to_balance q) s j e g h =
    record_unless_settled-keeps now (balance_result p q (api.disburse_to_balance q)) _ s j e g h
finish-keeps api now p (to_bank q b) s j e g h =
    record_unless_settled-keeps now (bank_result p b (api.disburse_to_bank q)) _ s j e g h

-- A settled order keeps its record, to the letter, through any call of `settleStoreOrder`.
pub settle-keeps_settled :
    (api : Provider) (now : ℕ) (p : StoreSettlementParams) (s : OrderSettlementStore) (j : String)
    (e : OrderSettlementRecord)
    → get_settlement s j ≡ some e
    → is_success e.status ≡ true
    → get_settlement (settle_store_order api now p s).1 j ≡ some e
unfolding settle_store_order
settle-keeps_settled api now p s j e g h =
    finish-keeps api now p (begin now p s) s j e (begin-keeps now p s j e g h) h

finish-frame :
    (api : Provider) (now : ℕ) (p : StoreSettlementParams) (s : OrderSettlementStore) (j : String)
    → p.order_id == j ≡ false
    → (t : Started) → get_settlement (after s t) j ≡ get_settlement s j
    → get_settlement (finish api now p t s).1 j ≡ get_settlement s j
unfolding finish finish_balance finish_bank balance_result bank_result
finish-frame api now p s j other (answered r s') f = f
finish-frame api now p s j other (to_balance q) f =
    record_unless_settled-frame now p s j other (balance_result p q (api.disburse_to_balance q)) _
      refl
finish-frame api now p s j other (to_bank q b) f =
    record_unless_settled-frame now p s j other (bank_result p b (api.disburse_to_bank q)) _ refl

-- A call leaves the records of all other orders alone.
pub settle-frame :
    (api : Provider) (now : ℕ) (p : StoreSettlementParams) (s : OrderSettlementStore) (j : String)
    → p.order_id == j ≡ false
    → get_settlement (settle_store_order api now p s).1 j ≡ get_settlement s j
unfolding settle_store_order
settle-frame api now p s j other =
    finish-frame api now p s j other (begin now p s) (begin-frame now p s j other)
