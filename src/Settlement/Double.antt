-- ===== src/Settlement/Double.antt =====
-- The arithmetic of JavaScript's numbers that a payout uses: positive IEEE doubles, each operation
-- rounded to 53 bits, ties to even. A double is `mantissa / 2 ^ shift`; results below 2 ^ 53.
pub mod Bounds
pub mod Error
pub mod Chain
use Prim.Native.Nat.{◌^◌}
use sera_core.Prelude.{ℕ, zero, suc, ◌+◌, ◌*◌, ◌/◌, ◌%◌, true, false, if◌then◌else◌, ltb, leb}

pub record Double : Type 0 where
  pub mantissa : ℕ
  pub shift : ℕ

-- the whole number nearest to a quotient, the even one of two
unfoldable pub nearest : ℕ → ℕ → ℕ
nearest num den =
    let q = num / den in
    let twice = 2 * (num % den) in
    if ltb twice den then q else if ltb den twice then q + 1 else q + q % 2

-- doubles the quotient until it has 53 bits before the point
unfoldable pub rounded : (fuel : ℕ) → ℕ → ℕ → ℕ → Double
rounded zero num den shift = record { mantissa = nearest num den; shift = shift }
rounded (suc fuel) num den shift = elim (leb (2 ^ 52 * den) num) [
  | true ↦ record { mantissa = nearest num den; shift = shift }
  | false ↦ rounded fuel (2 * num) den (suc shift)
]

-- a quotient of a payout that is not 0 is at least 10 ^ -4, which has 53 bits after 66 rounds
unfoldable pub double_of : ℕ → ℕ → Double
unfolding rounded
double_of num den = rounded 70 num den 0

-- `x / 100`
unfoldable pub percent_rate : Double → Double
unfolding double_of
percent_rate x = double_of x.mantissa (100 * 2 ^ x.shift)

-- `n * x`, for a whole number `n`
unfoldable pub times : ℕ → Double → Double
unfolding double_of
times n x = double_of (n * x.mantissa) (2 ^ x.shift)

-- `Math.round(x)`: the whole number at or below x + 1/2
unfoldable pub math_round : Double → ℕ
math_round x = (2 * x.mantissa + 2 ^ x.shift) / (2 * 2 ^ x.shift)
