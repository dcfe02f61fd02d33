-- ===== src/Settlement/Reversal/Laws.antt =====
-- Refunds and cancellations: what they change, and what they leave alone.
use sera_core.Prelude.{
  ℕ, String, Bool, true, false, none, some, ◌≡◌, refl, ◌≢◌, arith, List, [], ◌∷◌, find_first,
  Option-cases, inl, inr, is_empty, ◌∙◌, eq_refl,
}
use sera_core.Dict
use sera_core.Dict.{Dict}
use sera_core.Dict.Laws.{get-set_self}
use sera_core.Settlement.Store.{
  Outcome, RefundDetails, CancelDetails, OrderSettlementRecord, OrderSettlementStore, put_record,
  record_settlement, find_settlement_by_reference, get_settlement, has_reference,
}
use sera_core.Settlement.Store.Lookup.{get-record_settlement, records-put_record, written}
use sera_core.Settlement.Store.Durable.{
  IsDurable, find-IsNamed, put_record-IsDurable, record_settlement-IsDurable,
}
use sera_core.Settlement.Reversal.{
  RefundStatus, refund, record_refund, cancel, placeholder, tracked, record_cancel,
}

pub refund-IsDurable :
    (now : ℕ) (reference : String) (details : RefundDetails) (status : RefundStatus)
    (s : OrderSettlementStore)
    → IsDurable s
    → IsDurable (record_refund now reference details status s).1
unfolding record_refund refund
refund-IsDurable now reference details status s w =
    elim (Option-cases (find_settlement_by_reference reference s)) [
      | inl e ↦ rw (e, record_refund) w
      | inr (r, e) ↦
          rw (e, record_refund)
            (put_record-IsDurable s (refund now details status r) (find-IsNamed reference s r w e)
              w)
    ]

tracked-IsDurable :
    (now : ℕ) (reference : String) (status : Outcome) (s : OrderSettlementStore)
    → is_empty reference ≡ false
    → IsDurable s
    → IsDurable (tracked now reference status s)
unfolding tracked placeholder
tracked-IsDurable now reference status s n w =
    elim (Option-cases (find_settlement_by_reference reference s)) [
      | inl e ↦
          rw (e, tracked) (record_settlement-IsDurable now (placeholder now reference status) s n w)
      | inr (r, e) ↦ rw (e, tracked) w
    ]

pub cancel-IsDurable :
    (now : ℕ) (reference : String) (details : CancelDetails) (status : Outcome)
    (s : OrderSettlementStore)
    → is_empty reference ≡ false
    → IsDurable s
    → IsDurable (record_cancel now reference details status s).1
unfolding record_cancel cancel
cancel-IsDurable now reference details status s n w =
    let s' = tracked now reference status s in
    let w' = tracked-IsDurable now reference status s n w in
    elim (Option-cases (find_settlement_by_reference reference s')) [
      | inl e ↦ rw (e, record_cancel) w'
      | inr (r, e) ↦
          rw (e, record_cancel)
            (put_record-IsDurable s' (cancel now details status r)
              (find-IsNamed reference s' r w' e) w')
    ]

find_first-get :
    (p : OrderSettlementRecord → Bool) (d : Dict OrderSettlementRecord) (k : String)
    (r : OrderSettlementRecord)
    → Dict.get d k ≡ some r
    → p r ≡ true
    → find_first p (Dict.values d) ≢ none
unfolding find_first Dict.get Dict.values
find_first-get p [] k r g h e = cc
find_first-get p ((i, q) ∷ d) k r g h e = ground (arith, find_first-get p d k r)

find-get :
    (reference : String) (s : OrderSettlementStore) (r : OrderSettlementRecord)
    → get_settlement s r.order_id ≡ some r
    → has_reference reference r ≡ true
    → find_settlement_by_reference reference s ≢ none
unfolding find_settlement_by_reference get_settlement
find-get reference s r g h = find_first-get (has_reference reference) s.records r.order_id r g h

find_first-true :
    (p : OrderSettlementRecord → Bool) (rs : List OrderSettlementRecord) (r : OrderSettlementRecord)
    → find_first p rs ≡ some r
    → p r ≡ true
unfolding find_first
find_first-true p [] r e = cc
find_first-true p (x ∷ rs) r e = ground (arith, find_first-true p rs r)

find-has_reference :
    (reference : String) (s : OrderSettlementStore) (r : OrderSettlementRecord)
    → find_settlement_by_reference reference s ≡ some r
    → has_reference reference r ≡ true
unfolding find_settlement_by_reference
find-has_reference reference s r e =
    find_first-true (has_reference reference) (Dict.values s.records) r e

get-put_record :
    (s : OrderSettlementStore) (r : OrderSettlementRecord)
    → get_settlement (put_record s r) r.order_id ≡ some r
unfolding get_settlement
get-put_record s r = rw records-put_record (get-set_self s.records r.order_id r)

placed :
    (now : ℕ) (reference : String) (status : Outcome) (s : OrderSettlementStore)
    → get_settlement (record_settlement now (placeholder now reference status) s) reference
      ≡ some (written now (placeholder now reference status) s)
unfolding placeholder
placed now reference status s =
    get-record_settlement now (placeholder now reference status) s reference ∙ rw eq_refl refl

names :
    (now : ℕ) (reference : String) (status : Outcome) (s : OrderSettlementStore)
    → has_reference reference (written now (placeholder now reference status) s) ≡ true
unfolding placeholder
names now reference status s = rw eq_refl refl

-- a record with the reference is found, if any is there
find-placeholder :
    (now : ℕ) (reference : String) (status : Outcome) (s : OrderSettlementStore)
    → find_settlement_by_reference reference (tracked now reference status s) ≢ none
unfolding tracked
find-placeholder now reference status s =
    elim (Option-cases (find_settlement_by_reference reference s)) [
      | inr (r, e) ↦ rw (e, tracked) (λ h. cc)
      | inl e ↦
          rw (e, tracked)
            (find-get reference (record_settlement now (placeholder now reference status) s)
              (written now (placeholder now reference status) s)
              (unfold placeholder in placed now reference status s) (names now reference status s))
    ]

-- A cancellation always finds or makes a record: it returns one that carries the reference, is filed
-- under its order with the outcome, and keeps the amounts.
record_cancel-found :
    (now : ℕ) (reference : String) (details : CancelDetails) (status : Outcome)
    (s : OrderSettlementStore)
    → (r : OrderSettlementRecord) × ((record_cancel now reference details status s).0 ≡ some r)
      × (get_settlement (record_cancel now reference details status s).1 r.order_id ≡ some r)
      × (has_reference reference r ≡ true)
      × (r.cancel_details ≡ some (record details { status = some status; cancelled_at = some now }))
unfolding record_cancel
record_cancel-found now reference details status s =
    elim (Option-cases (find_settlement_by_reference reference (tracked now reference status s))) [
      | inl e ↦ absurd (find-placeholder now reference status s e)
      | inr (r, e) ↦ (
        cancel now details status r,
        rw (e, record_cancel) refl,
        rw (e, record_cancel)
            (get-put_record (tracked now reference status s) (cancel now details status r)),
        unfold cancel in find-has_reference reference (tracked now reference status s) r e,
        unfold cancel in refl,
      )
    ]
