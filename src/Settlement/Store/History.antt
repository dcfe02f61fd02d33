-- ===== src/Settlement/Store/History.antt =====
-- What the pages of a merchant show: the history hides what failed, the retry list shows it.
use sera_core.Prelude.{
  ◌+◌, String, ◌≡◌, true, false, not, ◌&&◌, none, some, List, [], ◌∷◌, arith, ◌==◌, is_empty,
  length, filter,
}
use sera_core.Dict
use sera_core.Settlement.Store.{
  OrderSettlementRecord, OrderSettlementStore, is_failed, matches, list_store_settlements,
  get_user_transaction_history, get_failed_settlements,
}

split_count :
    (id : String) (rs : List OrderSettlementRecord)
    → is_empty id ≡ false
    → length (
          filter
            (λ r.
              not (is_failed r.status)
              && matches (some id) r.store_id
              && matches none r.destination)
            rs)
        + length (filter (λ r. is_failed r.status && matches (some id) r.store_id) rs)
      ≡ length (filter (λ r. r.store_id == id && not (not true && is_failed r.status)) rs)
unfolding filter
split_count id [] n = omega arith
split_count id (r ∷ rs) n = ground (arith, split_count id rs n)

-- For a store with an id, the history and the list of settlements to retry split the settlements of
-- the store: their lengths add up to that of the full listing, whatever the statuses are.
history_split :
    (id : String) (s : OrderSettlementStore)
    → is_empty id ≡ false
    → length (get_user_transaction_history (some id) none s)
        + length (get_failed_settlements (some id) s)
      ≡ length (list_store_settlements id none s)
unfolding get_user_transaction_history get_failed_settlements list_store_settlements
history_split id s n = split_count id (Dict.values s.records) n
