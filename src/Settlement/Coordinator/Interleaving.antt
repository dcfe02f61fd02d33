-- ===== src/Settlement/Coordinator/Interleaving.antt =====
-- Calls of `settleStoreOrder` that overlap: while one awaits its provider, others begin and finish.
use sera_core.Prelude.{ℕ, String, true, some, List, ◌∷◌, ◌++◌, ◌≡◌}
use sera_core.Settlement.Store.{
  OrderSettlementRecord, OrderSettlementStore, is_success, get_settlement,
}
use sera_core.Settlement.Request.{
  StoreSettlementParams, BalanceRequest, BankRequest, BankDetails, Provider,
}
use sera_core.Settlement.Coordinator.{Started, answered, to_balance, to_bank, begin}
use sera_core.Settlement.Coordinator.Answer.{
  finish_balance, finish_bank, balance_result, bank_result,
}
use sera_core.Settlement.Coordinator.Idempotence.{after, begin-keeps, record_unless_settled-keeps}

-- a transfer that is awaited, with the call that sent it
pub data Flight : Type 0 where
  on_balance : StoreSettlementParams → BalanceRequest → Flight
  on_bank : StoreSettlementParams → BankRequest → BankDetails → Flight

pub record System : Type 0 where
  pub ledger : OrderSettlementStore
  pub flights : List Flight

abbrev pub launch : StoreSettlementParams → Started → List Flight → List Flight
launch p (answered r s) fs = fs
launch p (to_balance q) fs = on_balance p q ∷ fs
launch p (to_bank q b) fs = on_bank p q b ∷ fs

abbrev pub answer : Provider → ℕ → Flight → OrderSettlementStore → OrderSettlementStore
answer api now (on_balance p q) s = (finish_balance now p q (api.disburse_to_balance q) s).1
answer api now (on_bank p q b) s = (finish_bank now p b (api.disburse_to_bank q) s).1

-- A call begins, an awaited transfer is answered, or the provider throws and the call ends there.
pub data Step : System → System → Type 0 where
  begins :
      (x : System) (now : ℕ) (p : StoreSettlementParams)
      → Step x (record {
        ledger = after x.ledger (begin now p x.ledger);
        flights = launch p (begin now p x.ledger) x.flights;
      })
  answers :
      (x : System) (api : Provider) (now : ℕ) (before : List Flight) (f : Flight)
      (later : List Flight)
      → x.flights ≡ before ++ (f ∷ later)
      → Step x (record { ledger = answer api now f x.ledger; flights = before ++ later })
  throws :
      (x : System) (before : List Flight) (f : Flight) (later : List Flight)
      → x.flights ≡ before ++ (f ∷ later)
      → Step x (record { ledger = x.ledger; flights = before ++ later })

pub data Reach (x : System) : System → Type 0 where
  here : Reach x x
  next : {y z : System} → Reach x y → Step y z → Reach x z

module _ (j : String) (e : OrderSettlementRecord) (done : is_success e.status ≡ true) where
  answer-keeps :
      (api : Provider) (now : ℕ) (f : Flight) (s : OrderSettlementStore)
      → get_settlement s j ≡ some e
      → get_settlement (answer api now f s) j ≡ some e
  unfolding finish_balance finish_bank
  answer-keeps api now (on_balance p q) s g =
      record_unless_settled-keeps now (balance_result p q (api.disburse_to_balance q)) _ s j e g
        done
  answer-keeps api now (on_bank p q b) s g =
      record_unless_settled-keeps now (bank_result p b (api.disburse_to_bank q)) _ s j e g done

  Step-keeps :
      {x y : System}
      → Step x y
      → get_settlement x.ledger j ≡ some e
      → get_settlement y.ledger j ≡ some e
  Step-keeps (begins x now p) g = begin-keeps now p x.ledger j e g done
  Step-keeps (answers x api now before f later h) g = answer-keeps api now f x.ledger g
  Step-keeps (throws x before f later h) g = g

-- However calls of `settleStoreOrder` overlap, answers arrive and provider calls throw, an order
-- that is settled keeps its record to the letter.
pub Reach-keeps_settled :
    (j : String) (e : OrderSettlementRecord) {x y : System}
    → is_success e.status ≡ true
    → Reach x y
    → get_settlement x.ledger j ≡ some e
    → get_settlement y.ledger j ≡ some e
Reach-keeps_settled j e done here g = g
Reach-keeps_settled j e done (next r st) g =
    Step-keeps j e done st (Reach-keeps_settled j e done r g)
