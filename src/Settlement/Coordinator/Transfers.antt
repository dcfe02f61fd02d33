-- ===== src/Settlement/Coordinator/Transfers.antt =====
-- What a call sends, against the store's settings and the answer that the call gives.
use Prim.Native.String
use Prim.Native.String.append
use sera_core.Prelude.{
  ℕ, ◌+◌, ◌<◌, String, false, Option, none, some, ◌≡◌, ◌≢◌, ◌⊎◌, refl, sym, ap, subst, ◌∙◌, arith,
  Bool-cases, Option-cases, inl, inr, leb, is_empty, if◌then◌else◌, or_text, eq_iff,
}
use sera_core.Text.{keep_digits}
use sera_core.Settlement.Store.{
  OrderSettlementStore, PayoutMethod, dana, bank, unconfigured, get_settlement,
}
use sera_core.Settlement.Request.{
  StoreSettlementInfo, StoreProfile, StoreSettlementParams, BalanceRequest, BalanceAnswer,
  BankRequest, BankAnswer, BankDetails,
}
use sera_core.Settlement.Payout.{
  fee_of, net_of, check_existing, percent_of, net_payout, platform_fee,
}
use sera_core.Settlement.Coordinator.{
  Started, answered, to_balance, to_bank, begin, begin_balance, begin_bank, refuse, route,
  payout_method, dana_number, bank_details,
}
use sera_core.Settlement.Coordinator.Answer.{balance_result, bank_result}
use sera_core.Settlement.Coordinator.Sending.{begin_balance-to_balance, begin_bank-to_bank}

balance-ne-bank :
    (now : ℕ) (p : StoreSettlementParams) (s : OrderSettlementStore) (q : BankRequest)
    (b : BankDetails)
    → begin_balance now p s ≢ to_bank q b
unfolding begin_balance refuse
balance-ne-bank now p s q b h = ground arith

bank-ne-balance :
    (now : ℕ) (p : StoreSettlementParams) (s : OrderSettlementStore) (q : BalanceRequest)
    → begin_bank now p s ≢ to_balance q
unfolding begin_bank refuse
bank-ne-balance now p s q h = elim (Option-cases (bank_details p.store)) [
  | inl e ↦ let k = rw (e, begin_bank) at h in cc
  | inr (d, e) ↦ let k = rw (e, begin_bank) at h in cc
]

-- the percentage that is charged: the request's own, else the store's, else 2%
abbrev IsCharged : Option ℕ → Option StoreSettlementInfo → ℕ → Type 0
IsCharged (some custom) info percent = percent ≡ custom
IsCharged none none percent = percent ≡ 200
IsCharged none (some info) percent =
    (info.platform_fee_percent ≡ some percent)
    ⊎ ((info.platform_fee_percent ≡ none) × (percent ≡ 200))

-- the account that a store is paid to through DANA: the number of its settings, or else the digits of
-- the owner's WhatsApp number; a store without settings has to have such a number
abbrev IsDanaAccount : Option StoreSettlementInfo → String → String → Type 0
IsDanaAccount none owner account = (owner ≢ "") × (account ≡ keep_digits owner)
IsDanaAccount (some info) owner account =
    (info.payout_method ≡ dana)
    × ((info.dana_number ≡ some account)
        ⊎ (((info.dana_number ≡ none) ⊎ (info.dana_number ≡ some ""))
            × (account ≡ keep_digits owner)))

-- the account of a store at a bank, by its settings
abbrev IsBankAccount : Option StoreSettlementInfo → String → String → Type 0
IsBankAccount none number code = ⊥
IsBankAccount (some info) number code =
    (info.payout_method ≡ bank)
    × (info.bank_details ≡ some (record { account_number = number; bank_code = code }))

-- the amounts of a transfer: what is sent and the fee make up the gross amount
abbrev IsSplit : StoreSettlementParams → ℕ → ℕ → Type 0
IsSplit p amount fee =
    (0 < amount)
    × (amount + fee ≡ p.gross_amount)
    × ((percent : ℕ) × IsCharged p.custom_fee_percent p.store.settlement_info percent
        × (fee ≡ fee_of percent p.gross_amount))

-- a transfer through DANA, and what any answer to it makes the call report
abbrev IsDanaTransfer : StoreSettlementParams → BalanceRequest → Type 0
IsDanaTransfer p q =
    IsSplit p q.amount q.fee_amount
    × (q.customer_number ≢ "")
    × IsDanaAccount p.store.settlement_info p.store.owner_whatsapp q.customer_number
    × (q.partner_reference_no ≡ Prim.Native.String.◌++◌ "PAYOUT-" p.order_id)
    × ((a : BalanceAnswer)
        → ((balance_result p q a).net_payout ≡ q.amount)
          × ((balance_result p q a).platform_fee ≡ q.fee_amount)
          × ((balance_result p q a).destination ≡ q.customer_number))

abbrev IsBankTransfer : StoreSettlementParams → BankRequest → BankDetails → Type 0
IsBankTransfer p q b =
    IsBankAccount p.store.settlement_info q.beneficiary_account_number q.beneficiary_bank_code
    × (q.beneficiary_account_number ≢ "")
    × (q.beneficiary_bank_code ≢ "")
    × (q.partner_reference_no ≡ Prim.Native.String.◌++◌ "PAYOUT-BANK-" p.order_id)
    × ((a : BankAnswer)
        → IsSplit p q.amount (bank_result p b a).platform_fee
          × ((bank_result p b a).net_payout ≡ q.amount)
          × ((bank_result p b a).destination
              ≡ Prim.Native.String.◌++◌ q.beneficiary_bank_code
                  (Prim.Native.String.◌++◌ ":" q.beneficiary_account_number)))

abbrev pub IsCorrect : StoreSettlementParams → Started → Type 0
IsCorrect p (answered r s) = Unit
IsCorrect p (to_balance q) = IsDanaTransfer p q
IsCorrect p (to_bank q b) = IsBankTransfer p q b

IsCharged-percent_of :
    (custom : Option ℕ) (info : Option StoreSettlementInfo) (p : StoreSettlementParams)
    → p.custom_fee_percent ≡ custom
    → p.store.settlement_info ≡ info
    → IsCharged custom info (percent_of p)
unfolding percent_of
IsCharged-percent_of (some custom) info p e h = rw e refl
IsCharged-percent_of none none p e h = rw (e, h) refl
IsCharged-percent_of none (some info) p e h = elim (Option-cases info.platform_fee_percent) [
  | inl k ↦ inr (k, rw (e, h, k) refl)
  | inr (x, k) ↦ inl (k ∙ ap some (rw (e, h, k) refl))
]

net-IsSplit :
    (p : StoreSettlementParams) → 0 < net_payout p → IsSplit p (net_payout p) (platform_fee p)
unfolding net_payout net_of platform_fee
net-IsSplit p h = (
  h,
  omega (arith, h),
  (
    percent_of p,
    IsCharged-percent_of p.custom_fee_percent p.store.settlement_info p refl refl,
    refl,
  ),
)

filled-ne : (t : String) → is_empty t ≡ false → t ≢ ""
filled-ne t e h = let k = (eq_iff t "").1 h in cc

owner-method :
    (owner : String) → (if is_empty owner then unconfigured else dana) ≡ dana → owner ≢ ""
owner-method owner e = elim (Bool-cases (is_empty owner)) [
  | inl t ↦ absurd (let k = rw t at e in cc)
  | inr f ↦ filled-ne owner f
]

or_text-cases :
    (o : Option String) (d : String)
    → (o ≡ some (or_text o d)) ⊎ (((o ≡ none) ⊎ (o ≡ some "")) × (or_text o d ≡ d))
or_text-cases none d = inr (inl refl, refl)
or_text-cases (some n) d = elim (Bool-cases (is_empty n)) [
  | inl t ↦ rw t (inr (inr (ap some ((eq_iff n "").0 t)), refl))
  | inr f ↦ rw f (inl refl)
]

dana_number-IsDanaAccount :
    (info : Option StoreSettlementInfo) (store : StoreProfile)
    → store.settlement_info ≡ info
    → payout_method store ≡ dana
    → IsDanaAccount info store.owner_whatsapp (dana_number store)
dana_number-IsDanaAccount none store e h =
    (owner-method store.owner_whatsapp (rw e at h), rw e refl)
dana_number-IsDanaAccount (some info) store e h =
    rw e (rw e at h, or_text-cases info.dana_number (keep_digits store.owner_whatsapp))

begin_balance-filled :
    (now : ℕ) (p : StoreSettlementParams) (s : OrderSettlementStore) (q : BalanceRequest)
    → begin_balance now p s ≡ to_balance q
    → is_empty (dana_number p.store) ≡ false
unfolding begin_balance refuse
begin_balance-filled now p s q h = ground arith

bank_details-IsBankAccount :
    (info : Option StoreSettlementInfo) (store : StoreProfile) (b : BankDetails)
    → store.settlement_info ≡ info
    → payout_method store ≡ bank
    → bank_details store ≡ some b
    → IsBankAccount info b.account_number b.bank_code × (b.account_number ≢ "") × (b.bank_code ≢ "")
bank_details-IsBankAccount none store b e h k = absurd (let z = rw e at k in cc)
bank_details-IsBankAccount (some info) store b e h k = elim (Option-cases info.bank_details) [
  | inl absent ↦ absurd (let z = rw (e, absent) at k in cc)
  | inr (d, there) ↦
      let z = rw (e, there) at k in
      let same : d ≡ b = ground (arith, z) in
      let one : is_empty d.account_number ≡ false = ground (arith, z) in
      let two : is_empty d.bank_code ≡ false = ground (arith, z) in
      (
        (rw e at h, there ∙ ap some same),
        subst (λ c. c.account_number ≢ "") same (filled-ne d.account_number one),
        subst (λ c. c.bank_code ≢ "") same (filled-ne d.bank_code two),
      )
]

to_balance-IsCorrect :
    (now : ℕ) (p : StoreSettlementParams) (s : OrderSettlementStore) (q : BalanceRequest)
    → begin_balance now p s ≡ to_balance q
    → payout_method p.store ≡ dana
    → 0 < net_payout p
    → IsDanaTransfer p q
unfolding balance_result
to_balance-IsCorrect now p s q h m pos =
    let (amount, fee, positive, number, reference) = begin_balance-to_balance now p s q h pos in
    let split = net-IsSplit p pos in
    (
      rw (amount, fee) split,
      rw number (filled-ne (dana_number p.store) (begin_balance-filled now p s q h)),
      rw number (dana_number-IsDanaAccount p.store.settlement_info p.store refl m),
      reference,
      λ a. (sym amount, sym fee, refl),
    )

to_bank-IsCorrect :
    (now : ℕ) (p : StoreSettlementParams) (s : OrderSettlementStore) (q : BankRequest)
    (b : BankDetails)
    → begin_bank now p s ≡ to_bank q b
    → payout_method p.store ≡ bank
    → 0 < net_payout p
    → IsBankTransfer p q b
unfolding bank_result
to_bank-IsCorrect now p s q b h m pos =
    let (amount, positive, details, number, code, reference) =
      begin_bank-to_bank now p s q b h pos in
    let (account, filled, coded) =
      bank_details-IsBankAccount p.store.settlement_info p.store b refl m details in
    (
      rw (number, code) account,
      rw number filled,
      rw code coded,
      reference,
      λ a. (rw amount (net-IsSplit p pos), sym amount, rw (number, code) refl),
    )

route-IsCorrect :
    (m : PayoutMethod) (now : ℕ) (p : StoreSettlementParams) (s : OrderSettlementStore)
    → payout_method p.store ≡ m
    → 0 < net_payout p
    → IsCorrect p (route m now p s)
unfolding route
route-IsCorrect dana now p s e h = go (begin_balance now p s) refl
  where
    go : (t : Started) → begin_balance now p s ≡ t → IsCorrect p t
    go (answered r s') k = tt
    go (to_balance q) k = to_balance-IsCorrect now p s q k e h
    go (to_bank q b) k = absurd (balance-ne-bank now p s q b k)
route-IsCorrect bank now p s e h = go (begin_bank now p s) refl
  where
    go : (t : Started) → begin_bank now p s ≡ t → IsCorrect p t
    go (answered r s') k = tt
    go (to_balance q) k = absurd (bank-ne-balance now p s q k)
    go (to_bank q b) k = to_bank-IsCorrect now p s q b k e h
route-IsCorrect unconfigured now p s e h = unfold refuse in tt

-- The transfer that a call of `settleStoreOrder` sends, if it sends one: its amount is positive and makes up the gross
-- amount with the fee, which is the rounded percentage that the request sets, or else the
-- store's settings, or else 2%. It goes to the account of the method that the settings name: to the
-- DANA number there, or else, as for a store without settings, to the digits of the owner's WhatsApp
-- number; or to the account at a bank, of which both parts are there. It bears the reference of the
-- order. And whatever the provider answers, the call reports that amount, that fee and that account.
pub begin-IsCorrect :
    (now : ℕ) (p : StoreSettlementParams) (s : OrderSettlementStore) → IsCorrect p (begin now p s)
unfolding begin refuse
begin-IsCorrect now p s = elim (Option-cases (check_existing p (get_settlement s p.order_id))) [
  | inr (r, e) ↦ rw (e, begin) tt
  | inl e ↦
      rw (e, begin)
        (elim (Bool-cases (leb (net_payout p) 0)) [
          | inl z ↦ rw z tt
          | inr z ↦ rw z (route-IsCorrect (payout_method p.store) now p s refl (ground arith))
        ])
]
