-- ===== src/Settlement/Coordinator/Sending.antt =====
-- When a transfer is sent, and with what.
use Prim.Native.String
use sera_core.Prelude.{
  ℕ, ◌<◌, Bool, true, false, Option, none, some, ◌≡◌, refl, arith, Option-cases, inl, inr, ◌↔◌,
  is_empty, is_some, not, ◌&&◌, ltb,
}
use sera_core.Settlement.Store.{
  OrderSettlementRecord, OrderSettlementStore, PayoutMethod, dana, bank, unconfigured, is_success,
  get_settlement,
}
use sera_core.Settlement.Request.{
  StoreProfile, StoreSettlementParams, BalanceRequest, BankRequest, BankDetails,
}
use sera_core.Settlement.Payout.{check_existing, net_payout, platform_fee}
use sera_core.Settlement.Coordinator.{
  Started, answered, to_balance, to_bank, begin, begin_balance, begin_bank, refuse, route,
  payout_method, dana_number, bank_details,
}

abbrev is_none {ℓ} : {A : Type ℓ} → Option A → Bool
is_none none = true
is_none (some a) = false

-- the ledger has no record of the order, or one of the same gross amount that is not settled
abbrev pub IsOpen : StoreSettlementParams → Option OrderSettlementRecord → Type 0
IsOpen p none = Unit
IsOpen p (some e) = (e.gross_amount ≡ p.gross_amount) × (is_success e.status ≡ false)

check_existing-none_iff :
    (p : StoreSettlementParams) (o : Option OrderSettlementRecord)
    → (check_existing p o ≡ none) ↔ IsOpen p o
unfolding check_existing
check_existing-none_iff p none = (λ h. tt, λ h. refl)
check_existing-none_iff p (some e) = ground arith

-- the transfer that a call sends through DANA
abbrev pub SendsBalance : StoreSettlementParams → BalanceRequest → Type 0
SendsBalance p q =
    (q.amount ≡ net_payout p)
    × (q.fee_amount ≡ platform_fee p)
    × (0 < q.amount)
    × (q.customer_number ≡ dana_number p.store)
    × (q.partner_reference_no ≡ Prim.Native.String.◌++◌ "PAYOUT-" p.order_id)

pub begin_balance-to_balance :
    (now : ℕ) (p : StoreSettlementParams) (s : OrderSettlementStore) (q : BalanceRequest)
    → begin_balance now p s ≡ to_balance q
    → 0 < net_payout p
    → SendsBalance p q
unfolding begin_balance refuse
begin_balance-to_balance now p s q h pos = ground arith

-- the transfer that a call sends to a bank
abbrev pub SendsBank : StoreSettlementParams → BankRequest → BankDetails → Type 0
SendsBank p q b =
    (q.amount ≡ net_payout p)
    × (0 < q.amount)
    × (bank_details p.store ≡ some b)
    × (q.beneficiary_account_number ≡ b.account_number)
    × (q.beneficiary_bank_code ≡ b.bank_code)
    × (q.partner_reference_no ≡ Prim.Native.String.◌++◌ "PAYOUT-BANK-" p.order_id)

pub begin_bank-to_bank :
    (now : ℕ) (p : StoreSettlementParams) (s : OrderSettlementStore) (q : BankRequest)
    (b : BankDetails)
    → begin_bank now p s ≡ to_bank q b
    → 0 < net_payout p
    → SendsBank p q b
unfolding begin_bank refuse
begin_bank-to_bank now p s q b h pos = elim (Option-cases (bank_details p.store)) [
  | inl e ↦ let k = rw (e, begin_bank) at h in cc
  | inr (d, e) ↦ let k = rw (e, begin_bank) at h in ground (arith, k, e)
]

-- the Boolean reading of `begin`: whether a transfer is sent
abbrev pub sends : Started → Bool
sends (answered r s) = false
sends (to_balance q) = true
sends (to_bank q b) = true

-- the store has a payout destination
abbrev pub has_destination : PayoutMethod → StoreProfile → Bool
has_destination dana store = not (is_empty (dana_number store))
has_destination bank store = is_some (bank_details store)
has_destination unconfigured store = false

sends-route :
    (m : PayoutMethod) (now : ℕ) (p : StoreSettlementParams) (s : OrderSettlementStore)
    → sends (route m now p s) ≡ has_destination m p.store
unfolding route begin_balance begin_bank refuse
sends-route dana now p s = ground arith
sends-route bank now p s = elim (Option-cases (bank_details p.store)) [
  | inl e ↦ rw (e, begin_bank) refl
  | inr (d, e) ↦ rw (e, begin_bank) refl
]
sends-route unconfigured now p s = refl

sends-begin :
    (now : ℕ) (p : StoreSettlementParams) (s : OrderSettlementStore)
    → sends (begin now p s) ≡ (
        is_none (check_existing p (get_settlement s p.order_id))
        && ltb 0 (net_payout p)
        && has_destination (payout_method p.store) p.store)
unfolding begin refuse
sends-begin now p s = elim (Option-cases (check_existing p (get_settlement s p.order_id))) [
  | inr (r, e) ↦ rw (e, begin) refl
  | inl e ↦ rw (e, begin) (ground (arith, sends-route (payout_method p.store) now p s))
]

-- A transfer is sent exactly when the ledger has no record of the order, or one of the same gross
-- amount whose status is any other than SUCCESS; the net payout is positive; and the store has a
-- destination for its payout method.
pub begin-sends_iff :
    (now : ℕ) (p : StoreSettlementParams) (s : OrderSettlementStore)
    → (sends (begin now p s) ≡ true) ↔ (
        IsOpen p (get_settlement s p.order_id)
        × (0 < net_payout p)
        × (has_destination (payout_method p.store) p.store ≡ true))
begin-sends_iff now p s =
    let (to, from) = check_existing-none_iff p (get_settlement s p.order_id) in
    (
      λ h. (
        to (ground (arith, sends-begin now p s)),
        ground (arith, sends-begin now p s),
        ground (arith, sends-begin now p s),
      ),
      λ h. rw (sends-begin now p s) (rw (from h.0) (ground arith)),
    )
