-- ===== src/Settlement/Coordinator/Retry.antt =====
-- `retryFailedSettlements` touches only what failed.
use sera_core.Prelude.{
  ℕ, String, ◌≡◌, refl, Bool, false, ◌&&◌, Option, some, List, [], ◌∷◌, arith, ◌==◌, eq_iff, length,
  filter, All, Bool-cases, inl, inr, ◌∙◌, ap, suc, subst,
}
use sera_core.Dict
use sera_core.Dict.{Dict}
use sera_core.Dict.Keys.{Lacks, IsDistinct}
use sera_core.Settlement.Store.{
  OrderSettlementRecord, OrderSettlementStore, is_failed, matches, get_failed_settlements,
  get_settlement,
}
use sera_core.Settlement.Store.Durable.{IsKeyed, IsDurable}
use sera_core.Settlement.Request.{StoreProfile, Provider}
use sera_core.Settlement.Coordinator.Answer.{
  settle_store_order, retry_params, retry_each, retry_failed_settlements,
}
use sera_core.Settlement.Coordinator.Idempotence.{settle-frame}

abbrev Elsewhere : String → OrderSettlementRecord → Type 0
Elsewhere j r = r.order_id == j ≡ false

abbrev wanted : Option String → OrderSettlementRecord → Bool
wanted store_id r = is_failed r.status && matches store_id r.store_id

Lacks-Elsewhere :
    (j : String) (store_id : Option String) (d : Dict OrderSettlementRecord)
    → IsKeyed d
    → Lacks j d
    → All (Elsewhere j) (filter (wanted store_id) (Dict.values d))
unfolding filter Dict.values
Lacks-Elsewhere j store_id [] k l = tt
Lacks-Elsewhere j store_id ((i, r) ∷ d) k l =
    ground (arith, eq_iff r.order_id j, Lacks-Elsewhere j store_id d k.2 l.1)

failed-Elsewhere :
    (j : String) (e : OrderSettlementRecord) (store_id : Option String)
    (d : Dict OrderSettlementRecord)
    → IsKeyed d
    → IsDistinct d
    → Dict.get d j ≡ some e
    → is_failed e.status ≡ false
    → All (Elsewhere j) (filter (wanted store_id) (Dict.values d))
unfolding filter Dict.values Dict.get
failed-Elsewhere j e store_id [] k u g h = tt
failed-Elsewhere j e store_id ((i, r) ∷ d) k u g h = elim (Bool-cases (i == j)) [
  | inl same ↦
      let here : r ≡ e = ground arith in
      let sound : is_failed r.status ≡ false = rw here h in
      let later : All (Elsewhere j) (filter (wanted store_id) (Dict.values d)) =
        Lacks-Elsewhere j store_id d k.2 (subst (λ i'. Lacks i' d) ((eq_iff i j).0 same) u.0) in
      ground (arith, sound, later)
  | inr other ↦ ground (
    arith,
    eq_iff r.order_id j,
    eq_iff i j,
    failed-Elsewhere j e store_id d k.2 u.1 (ground arith) h,
  )
]

retry_each-frame :
    (api : Provider) (now : ℕ) (store : StoreProfile) (fs : List OrderSettlementRecord)
    (s : OrderSettlementStore) (j : String)
    → All (Elsewhere j) fs
    → get_settlement (retry_each api now store fs s).1 j ≡ get_settlement s j
unfolding retry_each
retry_each-frame api now store [] s j h = refl
retry_each-frame api now store (f ∷ fs) s j h =
    retry_each-frame api now store fs (settle_store_order api now (retry_params store f) s).1 j h.1
    ∙ settle-frame api now (retry_params store f) s j h.0

retry_each-length :
    (api : Provider) (now : ℕ) (store : StoreProfile) (fs : List OrderSettlementRecord)
    (s : OrderSettlementStore)
    → length (retry_each api now store fs s).0 ≡ length fs
unfolding retry_each
retry_each-length api now store [] s = refl
retry_each-length api now store (f ∷ fs) s =
    ap suc
      (retry_each-length api now store fs (settle_store_order api now (retry_params store f) s).1)

-- A retry answers once for each failed settlement of the store, and leaves every record as it was
-- whose status is not FAILED, of this store and of any other.
pub retry-keeps :
    (api : Provider) (now : ℕ) (store : StoreProfile) (s : OrderSettlementStore) (j : String)
    (e : OrderSettlementRecord)
    → IsDurable s
    → get_settlement s j ≡ some e
    → is_failed e.status ≡ false
    → (get_settlement (retry_failed_settlements api now store s).1 j ≡ some e)
      × (length (retry_failed_settlements api now store s).0
          ≡ length (get_failed_settlements (some store.store_id) s))
unfolding retry_failed_settlements
retry-keeps api now store s j e w g h = (
  retry_each-frame api now store (get_failed_settlements (some store.store_id) s) s j (
        unfold get_failed_settlements get_settlement in
        failed-Elsewhere j e (some store.store_id) s.records w.keyed w.distinct g h)
      ∙ g,
  retry_each-length api now store (get_failed_settlements (some store.store_id) s) s,
)
