-- ===== src/Spot.antt =====
-- src/capabilities/hyperliquid/UserSpotLedger.ts: the tokens that each user holds, in memory and in a
-- file. An amount of a token is a number of hundred-millionths, of USDC a number of millionths;
-- the floating-point rounding of the source is left out. The objects of records and holdings have
-- keys that are no array indices; `writable` says whether the file system accepts a write.
pub mod Positions
mod Tests
use sera_core.Prelude.{
  ℕ, ◌+◌, ◌-◌, String, Bool, true, false, Option, none, some, List, [], ◌∷◌, if◌then◌else◌, get_or,
  leb, ltb, filter,
}
use sera_core.Dict
use sera_core.Dict.{Dict}
use sera_core.Text.{to_lower, to_upper, trim}

pub record UserTokenHolding : Type 0 where
  pub coin : String
  pub amount : ℕ
  pub cost_basis_usdc : ℕ
  pub last_updated_at : ℕ

pub record UserPortfolioRecord : Type 0 where
  pub user_address : String
  pub holdings : Dict UserTokenHolding

pub record UserSpotLedger : Type 0 where
  pub records : Dict UserPortfolioRecord
  pub file : Option (Dict UserPortfolioRecord)
  pub writable : Bool

unfoldable pub load_each :
    Dict UserPortfolioRecord → Dict UserPortfolioRecord → Dict UserPortfolioRecord
load_each [] records = records
load_each ((address, r) ∷ rest) records = load_each rest (Dict.set records (to_lower address) r)

unfoldable pub load : UserSpotLedger → UserSpotLedger
load s = elim s.file [ none ↦ s | some object ↦ record s { records = load_each object s.records } ]

unfoldable pub save : UserSpotLedger → UserSpotLedger
save s = if s.writable then record s { file = some s.records } else s

unfoldable pub clean_address : String → String
clean_address address = trim (to_lower address)

unfoldable pub clean_coin : String → String
clean_coin coin = trim (to_upper coin)

unfoldable pub put_holdings :
    String → UserPortfolioRecord → Dict UserTokenHolding → UserSpotLedger → UserSpotLedger
put_holdings address r holdings s =
    save (record s { records = Dict.set s.records address (record r { holdings = holdings }) })

unfoldable pub record_buy : ℕ → String → String → ℕ → ℕ → UserSpotLedger → UserSpotLedger
record_buy now user coin amount_coin cost_usdc s =
    let address = clean_address user in
    let name = clean_coin coin in
    let r =
      get_or (Dict.get s.records address) (record { user_address = address; holdings = [] }) in
    let current =
      get_or (Dict.get r.holdings name)
        (record { coin = name; amount = 0; cost_basis_usdc = 0; last_updated_at = now }) in
    put_holdings address r
      (Dict.set r.holdings name (record current {
        amount = current.amount + amount_coin;
        cost_basis_usdc = current.cost_basis_usdc + cost_usdc;
        last_updated_at = now;
      }))
      s

-- a millionth of a token
abbrev pub dust : ℕ
dust = 100

-- the holdings after a sale of the token that is held
unfoldable pub sold :
    ℕ → String → ℕ → ℕ → UserTokenHolding → Dict UserTokenHolding → Dict UserTokenHolding
sold now name amount_coin proceeds_usdc current holdings =
    let left = current.amount - amount_coin in
    if leb left dust
    then Dict.delete holdings name
    else Dict.set holdings name (record current {
      amount = left;
      cost_basis_usdc = current.cost_basis_usdc - proceeds_usdc;
      last_updated_at = now;
    })

unfoldable pub record_sell : ℕ → String → String → ℕ → ℕ → UserSpotLedger → UserSpotLedger
record_sell now user coin amount_coin proceeds_usdc s =
    let address = clean_address user in
    let name = clean_coin coin in
    elim (Dict.get s.records address) [
      | none ↦ s
      | some r ↦ elim (Dict.get r.holdings name) [
        | none ↦ s
        | some current ↦
            put_holdings address r (sold now name amount_coin proceeds_usdc current r.holdings) s
      ]
    ]

unfoldable pub get_user_holdings : String → UserSpotLedger → List UserTokenHolding
get_user_holdings user s = elim (Dict.get s.records (clean_address user)) [
  | none ↦ []
  | some r ↦ filter (λ h. ltb 0 h.amount) (Dict.values r.holdings)
]
