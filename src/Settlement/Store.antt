-- ===== src/Settlement/Store.antt =====
-- src/capabilities/fintech/dana/OrderSettlementStore.ts: the ledger of merchant payouts.
-- A method takes the clock reading `now` that its `Date.now()` calls return. The file is the list of
-- records that `JSON.stringify` wrote; `writable` says whether the file system accepts a write (a
-- failed write is logged and ignored). Records are found under their own `orderId`, so the objects
-- that a method changes in place and sets again are written back by one `set`.
pub mod Lookup
pub mod Durable
pub mod History
use sera_core.Prelude.{
  ℕ, ◌+◌, String, Bool, true, false, not, ◌&&◌, ◌||◌, Option, none, some, List, [], ◌∷◌, ◌==◌,
  if◌then◌else◌, get_or, is_some, is_empty, truthy, is_text, filter, find_first,
}
use sera_core.Dict
use sera_core.Dict.{Dict}

pub data PayoutMethod : Type 0 where
  dana bank unconfigured : PayoutMethod

pub data Status : Type 0 where
  success failed pending refunded cancelled : Status

-- 'SUCCESS' | 'PENDING' | 'FAILED', the outcome of a refund or a cancellation
pub data Outcome : Type 0 where
  done waiting rejected : Outcome

pub record RefundDetails : Type 0 where
  pub refund_no : Option String
  pub partner_refund_no : Option String
  pub refund_amount : Option ℕ
  pub refunded_at : Option ℕ
  pub reason : Option String
  pub status : Option Outcome
  pub error : Option String

pub record CancelDetails : Type 0 where
  pub cancel_time : Option String
  pub reason : Option String
  pub cancelled_at : Option ℕ
  pub status : Option Outcome
  pub error : Option String

pub record OrderSettlementRecord : Type 0 where
  pub order_id : String
  pub store_id : String
  pub store_name : String
  pub gross_amount : ℕ
  pub platform_fee : ℕ
  pub net_payout : ℕ
  pub payout_method : PayoutMethod
  pub destination : String
  pub status : Status
  pub partner_reference_no : Option String
  pub reference_no : Option String
  pub error : Option String
  pub settled_at : ℕ
  pub attempts : Option ℕ
  pub last_attempt_at : Option ℕ
  pub refund_details : Option RefundDetails
  pub cancel_details : Option CancelDetails

pub record OrderSettlementStore : Type 0 where
  pub records : Dict OrderSettlementRecord
  pub persist_locally : Bool
  pub writable : Bool
  pub file : Option (List OrderSettlementRecord)

abbrev pub is_success : Status → Bool
is_success success = true
is_success _ = false

abbrev pub is_failed : Status → Bool
is_failed failed = true
is_failed _ = false

unfoldable pub load_items :
    Dict OrderSettlementRecord → List OrderSettlementRecord → Dict OrderSettlementRecord
load_items d [] = d
load_items d (item ∷ items) =
    load_items (if is_empty item.order_id then d else Dict.set d item.order_id item) items

-- the constructor: `loadRecords` reads the file into an empty map
unfoldable pub open_store : Bool → Bool → Option (List OrderSettlementRecord) → OrderSettlementStore
open_store persist_locally writable file = record {
  records = if persist_locally then load_items [] (get_or file []) else [];
  persist_locally = persist_locally;
  writable = writable;
  file = file;
}

unfoldable pub save_records : OrderSettlementStore → OrderSettlementStore
save_records s =
    if s.persist_locally && s.writable then record s { file = some (Dict.values s.records) } else s

unfoldable pub put_record : OrderSettlementStore → OrderSettlementRecord → OrderSettlementStore
put_record s r = save_records (record s { records = Dict.set s.records r.order_id r })

unfoldable pub get_settlement : OrderSettlementStore → String → Option OrderSettlementRecord
get_settlement s order_id = Dict.get s.records order_id

unfoldable pub has_been_settled : OrderSettlementStore → String → Bool
has_been_settled s order_id = elim (Dict.get s.records order_id) [
  | none ↦ false
  | some rec ↦ is_success rec.status
]

abbrev pub attempts_of : Option OrderSettlementRecord → ℕ
attempts_of none = 0
attempts_of (some r) = get_or r.attempts 0

unfoldable pub record_settlement :
    ℕ → OrderSettlementRecord → OrderSettlementStore → OrderSettlementStore
record_settlement now r s =
    let attempts = attempts_of (Dict.get s.records r.order_id) + 1 in
    put_record s (record r { attempts = some attempts; last_attempt_at = some now })

-- `options?.includeFailed === false` hides the failed ones
unfoldable pub list_store_settlements :
    String → Option Bool → OrderSettlementStore → List OrderSettlementRecord
list_store_settlements store_id include_failed s =
    let hide = not (get_or include_failed true) in
    filter (λ r. r.store_id == store_id && not (hide && is_failed r.status)) (Dict.values s.records)

-- a filter that an absent or empty text switches off
abbrev pub matches : Option String → String → Bool
matches want s = elim (truthy want) [ none ↦ true | some w ↦ s == w ]

unfoldable pub get_user_transaction_history :
    Option String → Option String → OrderSettlementStore → List OrderSettlementRecord
get_user_transaction_history store_id destination s =
    filter
      (λ r.
        not (is_failed r.status)
        && matches store_id r.store_id
        && matches destination r.destination)
      (Dict.values s.records)

unfoldable pub get_failed_settlements :
    Option String → OrderSettlementStore → List OrderSettlementRecord
get_failed_settlements store_id s =
    filter (λ r. is_failed r.status && matches store_id r.store_id) (Dict.values s.records)

abbrev pub has_reference : String → OrderSettlementRecord → Bool
has_reference reference r =
    is_text r.partner_reference_no reference
    || is_text r.reference_no reference
    || r.order_id == reference

unfoldable pub find_settlement_by_reference :
    String → OrderSettlementStore → Option OrderSettlementRecord
find_settlement_by_reference reference s =
    find_first (has_reference reference) (Dict.values s.records)

pub record StatusDetails : Type 0 where
  pub reference_no : Option String
  pub error : Option String

-- `if (details?.x) rec.x = details.x`
abbrev pub or_else {ℓ} : {A : Type ℓ} → Option A → Option A → Option A
or_else none b = b
or_else (some a) b = some a

unfoldable pub updated : ℕ → Status → StatusDetails → OrderSettlementRecord → OrderSettlementRecord
updated now status details rec = record rec {
  status = status;
  reference_no = or_else (truthy details.reference_no) rec.reference_no;
  error = or_else details.error rec.error;
  last_attempt_at = some now;
}

unfoldable pub update_settlement_status :
    ℕ
    → String
    → Status
    → StatusDetails
    → OrderSettlementStore
    → Option OrderSettlementRecord × OrderSettlementStore
update_settlement_status now reference status details s =
    elim (find_settlement_by_reference reference s) [
      | none ↦ (none, s)
      | some rec ↦
          (some (updated now status details rec), put_record s (updated now status details rec))
    ]
