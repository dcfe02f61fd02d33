-- ===== src/Settlement/Store/Lookup.antt =====
-- What the ledger answers after a write.
use sera_core.Prelude.{ℕ, String, ◌≡◌, refl, false, none, some, arith, ◌==◌, ◌+◌, if◌then◌else◌}
use sera_core.Dict
use sera_core.Dict.Laws.{get-set}
use sera_core.Settlement.Store.{
  OrderSettlementRecord, OrderSettlementStore, save_records, put_record, get_settlement,
  has_been_settled, record_settlement, attempts_of, is_success,
}

pub records-save_records : (s : OrderSettlementStore) → (save_records s).records ≡ s.records
unfolding save_records
records-save_records s = ground arith

pub records-put_record :
    (s : OrderSettlementStore) (r : OrderSettlementRecord)
    → (put_record s r).records ≡ Dict.set s.records r.order_id r
unfolding put_record
records-put_record s r =
    records-save_records (record s { records = Dict.set s.records r.order_id r })

-- the record as `recordSettlement` writes it
abbrev pub written : ℕ → OrderSettlementRecord → OrderSettlementStore → OrderSettlementRecord
written now r s = record r {
  attempts = some (attempts_of (Dict.get s.records r.order_id) + 1);
  last_attempt_at = some now;
}

pub get-record_settlement :
    (now : ℕ) (r : OrderSettlementRecord) (s : OrderSettlementStore) (j : String)
    → get_settlement (record_settlement now r s) j
      ≡ (if r.order_id == j then some (written now r s) else get_settlement s j)
unfolding record_settlement get_settlement put_record
get-record_settlement now r s j =
    rw records-save_records (get-set s.records r.order_id j (written now r s))

-- `hasBeenSettled` is `getSettlement` read for its status
pub has_been_settled-get :
    (s : OrderSettlementStore) (j : String)
    → has_been_settled s j
      ≡ elim (get_settlement s j) [ none ↦ false | some r ↦ is_success r.status ]
unfolding has_been_settled get_settlement
has_been_settled-get s j = refl

pub settled-record_settlement :
    (now : ℕ) (r : OrderSettlementRecord) (s : OrderSettlementStore) (j : String)
    → has_been_settled (record_settlement now r s) j
      ≡ (if r.order_id == j then is_success r.status else has_been_settled s j)
settled-record_settlement now r s j = ground (
  arith,
  has_been_settled-get (record_settlement now r s) j,
  has_been_settled-get s j,
  get-record_settlement now r s j,
)
