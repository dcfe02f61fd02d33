-- ===== src/Spot/Positions.antt =====
-- src/capabilities/hyperliquid/UserSpotLedger.ts against an abstract book: for each user and token,
-- the amount and the cost, if the token is held.
use mathlib.Core.Path.{fun_ext}
use sera_core.Prelude.{
  ℕ, ◌+◌, ◌-◌, String, ◌≡◌, refl, sym, ap, ◌∙◌, Bool, true, false, Option, none, some, List, [],
  ◌∷◌, ◌==◌, eq_iff, if◌then◌else◌, get_or, leb, arith, Bool-cases, Option-cases, inl, inr,
}
use sera_core.Dict
use sera_core.Dict.{Dict}
use sera_core.Dict.Laws.{get-set, get-delete}
use sera_core.Spot.{
  UserTokenHolding, UserPortfolioRecord, UserSpotLedger, save, clean_address, clean_coin,
  put_holdings, record_buy, dust, sold, record_sell,
}

-- a fill, with its clock reading
pub data Fill : Type 0 where
  buys : (now : ℕ) (user coin : String) (amount cost : ℕ) → Fill
  sells : (now : ℕ) (user coin : String) (amount proceeds : ℕ) → Fill

unfoldable pub run_fills : List Fill → UserSpotLedger → UserSpotLedger
run_fills [] s = s
run_fills (buys now user coin amount cost ∷ fs) s =
    run_fills fs (record_buy now user coin amount cost s)
run_fills (sells now user coin amount proceeds ∷ fs) s =
    run_fills fs (record_sell now user coin amount proceeds s)

abbrev pub Book : Type 0
Book = String → String → Option (ℕ × ℕ)

abbrev pub position : Option UserTokenHolding → Option (ℕ × ℕ)
position none = none
position (some h) = some (h.amount, h.cost_basis_usdc)

abbrev pub held : Option UserPortfolioRecord → String → Option UserTokenHolding
held none coin = none
held (some r) coin = Dict.get r.holdings coin

unfoldable pub book_of : UserSpotLedger → Book
book_of s address coin = position (held (Dict.get s.records address) coin)

abbrev write : String → String → Option (ℕ × ℕ) → Book → Book
write address coin p b a c = if address == a then (if coin == c then p else b a c) else b a c

-- a sale leaves a position, or dust that is dropped
abbrev pub rest_of : ℕ × ℕ → ℕ → ℕ → Option (ℕ × ℕ)
rest_of (n, cost) amount proceeds =
    if leb (n - amount) dust then none else some (n - amount, cost - proceeds)

unfoldable pub book_fill : Fill → Book → Book
book_fill (buys now user coin amount cost) b =
    let (n, basis) = get_or (b (clean_address user) (clean_coin coin)) (0, 0) in
    write (clean_address user) (clean_coin coin) (some (n + amount, basis + cost)) b
book_fill (sells now user coin amount proceeds) b =
    elim (b (clean_address user) (clean_coin coin)) [
      | none ↦ b
      | some p ↦ write (clean_address user) (clean_coin coin) (rest_of p amount proceeds) b
    ]

unfoldable pub book_fills : List Fill → Book → Book
book_fills [] b = b
book_fills (f ∷ fs) b = book_fills fs (book_fill f b)

records-save : (s : UserSpotLedger) → (save s).records ≡ s.records
unfolding save
records-save s = ground arith

-- new holdings of a user are what the book then shows of that user
book_of-put_holdings :
    (address : String) (r : UserPortfolioRecord) (holdings : Dict UserTokenHolding)
    (s : UserSpotLedger) (a c : String)
    → book_of (put_holdings address r holdings s) a c
      ≡ (if address == a then position (Dict.get holdings c) else book_of s a c)
unfolding put_holdings book_of
book_of-put_holdings address r holdings s a c =
    let r' = record r { holdings = holdings } in
    ap (λ d. position (held (Dict.get d a) c))
      (records-save (record s { records = Dict.set s.records address r' }))
    ∙ ap (λ o. position (held o c)) (get-set s.records address a r')
    ∙ elim (Bool-cases (address == a)) [ inl same ↦ rw same refl | inr other ↦ rw other refl ]

put_holdings-write :
    (address name : String) (r : UserPortfolioRecord) (holdings : Dict UserTokenHolding)
    (p : Option (ℕ × ℕ)) (s : UserSpotLedger)
    → ((c : String)
        → position (Dict.get holdings c) ≡ (if name == c then p else book_of s address c))
    → book_of (put_holdings address r holdings s) ≡ write address name p (book_of s)
put_holdings-write address name r holdings p s h = fun_ext (λ a. fun_ext (λ c.
    book_of-put_holdings address r holdings s a c ∙ elim (Bool-cases (address == a)) [
      | inr other ↦ rw other refl
      | inl same ↦
          let moved =
            ap (λ x. if name == c then p else book_of s x c) ((eq_iff address a).0 same) in
          rw same (h c ∙ moved)
    ]))

-- the record of a user that is read, or a new one
book_of-known :
    (s : UserSpotLedger) (address coin : String)
    → book_of s address coin
      ≡ position (
          Dict.get
            (get_or
              (Dict.get s.records address)
              (record { user_address = address; holdings = [] })).holdings
            coin)
unfolding book_of Dict.get
book_of-known s address coin = elim (Option-cases (Dict.get s.records address)) [
  | inl new ↦ rw new refl
  | inr (r, known) ↦ rw known refl
]

-- a position after a purchase
abbrev bought : ℕ → ℕ → Option (ℕ × ℕ) → ℕ × ℕ
bought amount cost p = let (n, basis) = get_or p (0, 0) in (n + amount, basis + cost)

position-bought :
    (h : Option UserTokenHolding) (name : String) (now amount cost : ℕ)
    → (let current =
          get_or h
            (record { coin = name; amount = 0; cost_basis_usdc = 0; last_updated_at = now }) in
        ◌≡◌ {A = ℕ × ℕ}
          (current.amount + amount, current.cost_basis_usdc + cost)
          (bought amount cost (position h)))
position-bought none name now amount cost = refl
position-bought (some h) name now amount cost = refl

position-if :
    (b : Bool) (h o : Option UserTokenHolding)
    → position (if b then h else o) ≡ (if b then position h else position o)
position-if true h o = refl
position-if false h o = refl

book_of-held :
    (s : UserSpotLedger) (address coin : String) (r : UserPortfolioRecord)
    → Dict.get s.records address ≡ some r
    → book_of s address coin ≡ position (Dict.get r.holdings coin)
unfolding book_of
book_of-held s address coin r e = rw e refl

record_buy-write :
    (now : ℕ) (user coin : String) (amount cost : ℕ) (s : UserSpotLedger)
    → book_of (record_buy now user coin amount cost s)
      ≡ book_fill (buys now user coin amount cost) (book_of s)
unfolding record_buy book_fill
record_buy-write now user coin amount cost s =
    let address = clean_address user in
    let name = clean_coin coin in
    let r =
      get_or (Dict.get s.records address) (record { user_address = address; holdings = [] }) in
    let current =
      get_or (Dict.get r.holdings name)
        (record { coin = name; amount = 0; cost_basis_usdc = 0; last_updated_at = now }) in
    let next = record current {
      amount = current.amount + amount;
      cost_basis_usdc = current.cost_basis_usdc + cost;
      last_updated_at = now;
    } in
    put_holdings-write address name r (Dict.set r.holdings name next)
      (some (next.amount, next.cost_basis_usdc)) s
      (λ c.
        ap position (get-set r.holdings name c next)
        ∙ position-if (name == c) (some next) (Dict.get r.holdings c)
        ∙ ap (λ o. if name == c then some (next.amount, next.cost_basis_usdc) else o)
            (sym (book_of-known s address c)))
    ∙ ap (λ p. write address name (some p) (book_of s))
        (position-bought (Dict.get r.holdings name) name now amount cost
          ∙ ap (bought amount cost) (sym (book_of-known s address name)))

sold-rest :
    (now : ℕ) (name : String) (amount proceeds : ℕ) (current : UserTokenHolding)
    (holdings : Dict UserTokenHolding) (c : String)
    → position (Dict.get (sold now name amount proceeds current holdings) c) ≡ (
        if name == c
        then rest_of (current.amount, current.cost_basis_usdc) amount proceeds
        else position (Dict.get holdings c))
unfolding sold
sold-rest now name amount proceeds current holdings c =
    let next = record current {
      amount = current.amount - amount;
      cost_basis_usdc = current.cost_basis_usdc - proceeds;
      last_updated_at = now;
    } in
    elim (Bool-cases (leb (current.amount - amount) dust)) [
      | inl drops ↦ rw drops (
          ap position (get-delete holdings name c)
          ∙ position-if (name == c) none (Dict.get holdings c))
      | inr stays ↦ rw stays (
          ap position (get-set holdings name c next)
          ∙ position-if (name == c) (some next) (Dict.get holdings c))
    ]

record_sell-write :
    (now : ℕ) (user coin : String) (amount proceeds : ℕ) (s : UserSpotLedger)
    → book_of (record_sell now user coin amount proceeds s)
      ≡ book_fill (sells now user coin amount proceeds) (book_of s)
unfolding record_sell book_fill
record_sell-write now user coin amount proceeds s =
    let address = clean_address user in
    let name = clean_coin coin in
    elim (Option-cases (Dict.get s.records address)) [
      | inl unknown ↦
          let nothing : book_of s address name ≡ none = unfold book_of in rw unknown refl in
          rw (unknown, record_sell) (rw (nothing, book_fill) refl)
      | inr (r, known) ↦ elim (Option-cases (Dict.get r.holdings name)) [
        | inl missing ↦
            let nothing = book_of-held s address name r known ∙ ap position missing in
            rw (known, missing, record_sell) (rw (nothing, book_fill) refl)
        | inr (current, there) ↦
            let found = book_of-held s address name r known ∙ ap position there in
            rw (known, there, record_sell)
              (rw (found, book_fill)
                (put_holdings-write address name r
                  (sold now name amount proceeds current r.holdings)
                  (rest_of (current.amount, current.cost_basis_usdc) amount proceeds) s
                  (λ c.
                    sold-rest now name amount proceeds current r.holdings c
                    ∙ ap
                        (λ o.
                          if name == c
                          then rest_of (current.amount, current.cost_basis_usdc) amount proceeds
                          else o)
                        (sym (book_of-held s address c r known)))))
      ]
    ]

-- The ledger keeps a book of positions: over any history of fills, the amount and the cost that it
-- holds of each user and token are what purchases add and sales take away, floored at 0, a sale that
-- leaves a millionth or less drops the position, and a fill of one user or token changes no other.
pub run_fills-refines :
    (fs : List Fill) (s : UserSpotLedger) → book_of (run_fills fs s) ≡ book_fills fs (book_of s)
unfolding run_fills book_fills
run_fills-refines [] s = refl
run_fills-refines (buys now user coin amount cost ∷ fs) s =
    run_fills-refines fs (record_buy now user coin amount cost s)
    ∙ ap (book_fills fs) (record_buy-write now user coin amount cost s)
run_fills-refines (sells now user coin amount proceeds ∷ fs) s =
    run_fills-refines fs (record_sell now user coin amount proceeds s)
    ∙ ap (book_fills fs) (record_sell-write now user coin amount proceeds s)
