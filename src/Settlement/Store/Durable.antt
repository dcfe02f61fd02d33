-- ===== src/Settlement/Store/Durable.antt =====
-- Durable ledgers: every record is filed under its own order, once, and the file holds what the
-- memory holds; so a restart loses nothing.
use sera_core.Prelude.{
  ℕ, String, true, false, Option, some, List, [], ◌∷◌, ◌++◌, ◌≡◌, refl, arith, eq_iff, Option-cases,
  inl, inr, is_empty, All, find_first-All, All-filter, ◌∙◌, ap,
}
use mathlib.Core.List.{append-nil, append_assoc}
use sera_core.Dict
use sera_core.Dict.{Dict}
use sera_core.Dict.Keys.{IsDistinct, set-IsDistinct, set-Lacks, Lacks-middle}
use sera_core.Settlement.Store.{
  OrderSettlementRecord, OrderSettlementStore, Status, StatusDetails, load_items, open_store,
  save_records, put_record, record_settlement, find_settlement_by_reference, has_reference, updated,
  update_settlement_status, get_failed_settlements,
}
use sera_core.Settlement.Store.Lookup.{records-put_record, written}

-- each record has a name and is filed under it
abbrev pub IsKeyed : Dict OrderSettlementRecord → Type 0
IsKeyed [] = Unit
IsKeyed ((k, r) ∷ d) = (r.order_id ≡ k) × (is_empty k ≡ false) × IsKeyed d

set-IsKeyed :
    (d : Dict OrderSettlementRecord) (r : OrderSettlementRecord)
    → is_empty r.order_id ≡ false
    → IsKeyed d
    → IsKeyed (Dict.set d r.order_id r)
unfolding Dict.set
set-IsKeyed [] r n h = (refl, n, tt)
set-IsKeyed ((k, q) ∷ d) r n h = ground (arith, eq_iff k r.order_id, set-IsKeyed d r n)

load_items-cons :
    (acc : Dict OrderSettlementRecord) (r : OrderSettlementRecord)
    (items : List OrderSettlementRecord)
    → is_empty r.order_id ≡ false
    → load_items acc (r ∷ items) ≡ load_items (Dict.set acc r.order_id r) items
unfolding load_items
load_items-cons acc r items n = rw (n, load_items) refl

load_items-values :
    (acc d : Dict OrderSettlementRecord)
    → IsKeyed d
    → IsDistinct (acc ++ d)
    → load_items acc (Dict.values d) ≡ acc ++ d
unfolding Dict.values
load_items-values acc [] h k = unfold load_items in rw append-nil
load_items-values acc ((i, r) ∷ d) h k =
    let named : is_empty r.order_id ≡ false = rw h.0 h.1 in
    let filed : Dict.set acc r.order_id r ≡ acc ++ (i, r) ∷ [] =
      ap (λ k. Dict.set acc k r) h.0 ∙ set-Lacks acc i r (Lacks-middle acc d i r k) in
    load_items-cons acc r (Dict.values d) named
    ∙ ap (λ m. load_items m (Dict.values d)) filed
    ∙ load_items-values (acc ++ (i, r) ∷ []) d h.2 (rw append_assoc k)
    ∙ append_assoc acc ((i, r) ∷ []) d

-- the store writes its file, and the file is what the memory holds
pub record IsDurable (s : OrderSettlementStore) : Type 0 where
  pub keyed : IsKeyed s.records
  pub distinct : IsDistinct s.records
  pub persists : s.persist_locally ≡ true
  pub writes : s.writable ≡ true
  pub saved : s.file ≡ some (Dict.values s.records)

-- A record with an order id is written well.
pub put_record-IsDurable :
    (s : OrderSettlementStore) (r : OrderSettlementRecord)
    → is_empty r.order_id ≡ false
    → IsDurable s
    → IsDurable (put_record s r)
unfolding put_record save_records
put_record-IsDurable s r n w = record {
  keyed = rw (records-put_record s r) (set-IsKeyed s.records r n w.keyed);
  distinct = rw (records-put_record s r) (set-IsDistinct s.records r.order_id r w.distinct);
  persists = ground arith;
  writes = ground arith;
  saved = ground arith;
}

-- What a restart reads back is what was in memory.
pub open_store-file : (s : OrderSettlementStore) → IsDurable s → open_store true true s.file ≡ s
unfolding open_store
open_store-file s w = ground (arith, load_items-values [] s.records w.keyed w.distinct)

abbrev pub IsNamed : OrderSettlementRecord → Type 0
IsNamed r = is_empty r.order_id ≡ false

values-IsNamed : (d : Dict OrderSettlementRecord) → IsKeyed d → All IsNamed (Dict.values d)
unfolding Dict.values
values-IsNamed [] h = tt
values-IsNamed ((k, r) ∷ d) h = (rw h.0 h.1, values-IsNamed d h.2)

-- what a search by reference finds has an order id
pub find-IsNamed :
    (reference : String) (s : OrderSettlementStore) (r : OrderSettlementRecord)
    → IsDurable s
    → find_settlement_by_reference reference s ≡ some r
    → IsNamed r
unfolding find_settlement_by_reference
find-IsNamed reference s r w e =
    find_first-All IsNamed (has_reference reference) (Dict.values s.records) r
      (values-IsNamed s.records w.keyed) e

pub record_settlement-IsDurable :
    (now : ℕ) (r : OrderSettlementRecord) (s : OrderSettlementStore)
    → IsNamed r
    → IsDurable s
    → IsDurable (record_settlement now r s)
unfolding record_settlement
record_settlement-IsDurable now r s n w = put_record-IsDurable s (written now r s) n w

pub update-IsDurable :
    (now : ℕ) (reference : String) (status : Status) (details : StatusDetails)
    (s : OrderSettlementStore)
    → IsDurable s
    → IsDurable (update_settlement_status now reference status details s).1
unfolding update_settlement_status updated
update-IsDurable now reference status details s w =
    elim (Option-cases (find_settlement_by_reference reference s)) [
      | inl e ↦ rw (e, update_settlement_status) w
      | inr (r, e) ↦
          rw (e, update_settlement_status)
            (put_record-IsDurable s (updated now status details r) (find-IsNamed reference s r w e)
              w)
    ]

pub failed-IsNamed :
    (store_id : Option String) (s : OrderSettlementStore)
    → IsDurable s
    → All IsNamed (get_failed_settlements store_id s)
unfolding get_failed_settlements
failed-IsNamed store_id s w =
    All-filter IsNamed _ (Dict.values s.records) (values-IsNamed s.records w.keyed)

abbrev pub empty_store : OrderSettlementStore
empty_store = record { records = []; persist_locally = true; writable = true; file = some [] }

pub empty_store-IsDurable : IsDurable empty_store
unfolding Dict.values
empty_store-IsDurable = record {
  keyed = tt;
  distinct = tt;
  persists = refl;
  writes = refl;
  saved = refl;
}
