-- ===== src/Settlement/Double/Chain.antt =====
-- The errors of a chain of roundings, on the numbers that the doubles are made of.
use Prim.Native.Nat.{◌^◌}
use native.Mathlib.Nat.{mul-le-mul_left, le_of_mul-le-mul_left}
use sera_core.Prelude.{ℕ, ◌+◌, ◌*◌, ◌≤◌, ◌<◌, arith}

-- two numbers that are at most `e` apart
abbrev pub Within : ℕ → ℕ → ℕ → Type 0
Within a b e = (a ≤ b + e) × (b ≤ a + e)

-- a percentage in hundredths, as the double m / c of p / 100, and a hundredth of that, as n / d
pub rate-Within :
    (p m c n d : ℕ)
    → Within (2 * (m * 100)) (2 * (p * c)) 100
    → Within (2 * (n * (100 * c))) (2 * (m * d)) (100 * c)
    → 2 ^ 46 ≤ c
    → 2 ^ 52 ≤ d
    → Within (20000 * (2 ^ 45 * n)) (2 * (2 ^ 45 * (p * d))) (129 * d)
rate-Within p m c n d a b big_c big_d =
    let one = mul-le-mul_left d a.0 in
    let two = mul-le-mul_left d a.1 in
    let c_d = mul-le-mul_left d big_c in
    let d_c = mul-le-mul_left c big_d in
    (
      le_of_mul-le-mul_left {k = c} (grind (arith, one, b.0, c_d, d_c)) (omega (arith, big_c)),
      le_of_mul-le-mul_left {k = c} (grind (arith, two, b.1, c_d, d_c)) (omega (arith, big_c)),
    )

-- a whole number of such rates
pub scaled-Within :
    (p g n d : ℕ)
    → g ≤ 2 ^ 45
    → Within (20000 * (2 ^ 45 * n)) (2 * (2 ^ 45 * (p * d))) (129 * d)
    → Within (20000 * (g * n)) (2 * (p * g * d)) (129 * d)
scaled-Within p g n d small r =
    let one = mul-le-mul_left g r.0 in
    let two = mul-le-mul_left g r.1 in
    let s = mul-le-mul_left d small in
    (
      le_of_mul-le-mul_left {k = 2 ^ 45} (grind (arith, one, s)) (omega arith),
      le_of_mul-le-mul_left {k = 2 ^ 45} (grind (arith, two, s)) (omega arith),
    )

-- rounded to a double l / e
pub product-Within :
    (p g n d l e : ℕ)
    → 0 < d
    → 128 ≤ e
    → Within (20000 * (g * n)) (2 * (p * g * d)) (129 * d)
    → Within (2 * (l * d)) (2 * (g * n * e)) d
    → Within (20000 * l) (2 * (p * g * e)) (208 * e)
product-Within p g n d l e pos big r t =
    let one = mul-le-mul_left e r.0 in
    let two = mul-le-mul_left e r.1 in
    let s = mul-le-mul_left d big in
    (
      le_of_mul-le-mul_left {k = d} (grind (arith, one, t.0, s)) pos,
      le_of_mul-le-mul_left {k = d} (grind (arith, two, t.1, s)) pos,
    )

-- and to a whole number
pub whole-Within :
    (p g l e f : ℕ)
    → 0 < e
    → f * (2 * e) ≤ 2 * l + e
    → 2 * l + e < (f + 1) * (2 * e)
    → Within (20000 * l) (2 * (p * g * e)) (208 * e)
    → Within (10000 * f) (p * g) 5104
whole-Within p g l e f pos low high r =
    let up =
      le_of_mul-le-mul_left {m = 20000 * f} {n = 2 * (p * g) + 10208} {k = e}
        (grind (arith, low, r.0)) pos in
    let down =
      le_of_mul-le-mul_left {m = 2 * (p * g)} {n = 20000 * f + 10208} {k = e}
        (grind (arith, high, r.1)) pos in
    (omega (arith, up), omega (arith, down))
