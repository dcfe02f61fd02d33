-- ===== src/Settlement/Payout/Fees.antt =====
-- DanaSettlementCoordinator.ts: how a gross amount is split into the platform's fee and the net payout.
use Prim.Native.Nat.{◌^◌}
use native.Mathlib.Nat.{
  pow-le-pow_right, one-le-pow, mul-le-mul_left, div-mul-le_self, lt-div-mul-add,
}
use sera_core.Prelude.{ℕ, ◌+◌, ◌*◌, ◌≤◌, ◌<◌, ◌≡◌, arith}
use sera_core.Settlement.Double.{double_of, percent_rate, times, math_round}
use sera_core.Settlement.Double.Bounds.{
  IsAtMost, double_of-IsAtMost, percent_rate-IsAtMost, times-IsAtMost, math_round-le,
}
use sera_core.Settlement.Double.Error.{double_of-IsNear, double_of-shift}
use sera_core.Settlement.Double.Chain.{
  Within, rate-Within, scaled-Within, product-Within, whole-Within,
}
use sera_core.Settlement.Request.{StoreSettlementParams}
use sera_core.Settlement.Payout.{fee_of, net_of, percent_of, platform_fee, net_payout}

percent-IsAtMost : (percent : ℕ) → percent ≤ 10000 → IsAtMost (double_of percent 100) 100
percent-IsAtMost percent h = double_of-IsAtMost percent 100 100 (omega arith) (omega (arith, h))

fee_of-le : (percent gross : ℕ) → percent ≤ 10000 → fee_of percent gross ≤ gross
unfolding fee_of
fee_of-le percent gross h =
    math_round-le _ gross
      (times-IsAtMost gross _ (percent_rate-IsAtMost _ (percent-IsAtMost percent h)))

unit_pos : (s : ℕ) → 0 < 2 ^ s
unit_pos s = one-le-pow s 2 (omega arith)

unit_big : (j s : ℕ) → j ≤ s → 2 ^ j ≤ 2 ^ s
unit_big j s h = pow-le-pow_right {n = 2} (omega arith) h

-- the rate of a percentage
rate_of-Within :
    (percent : ℕ)
    → percent ≤ 10000
    → let y = percent_rate (double_of percent 100) in
      Within
        (20000 * (2 ^ 45 * y.mantissa))
        (2 * (2 ^ 45 * (percent * 2 ^ y.shift)))
        (129 * 2 ^ y.shift)
unfolding percent_rate
rate_of-Within percent h =
    let x = double_of percent 100 in
    let c = 2 ^ x.shift in
    let pos : 0 < c = unit_pos x.shift in
    let top : x.mantissa ≤ 100 * c = percent-IsAtMost percent h in
    let y = double_of x.mantissa (100 * c) in
    rate-Within percent x.mantissa c y.mantissa (2 ^ y.shift)
      (double_of-IsNear percent 100 (omega arith))
      (double_of-IsNear x.mantissa (100 * c) (omega (arith, pos)))
      (unit_big 46 x.shift (double_of-shift 46 percent 100 (omega arith) (omega (arith, h))))
      (unit_big 52 y.shift
        (double_of-shift 52 x.mantissa (100 * c) (omega arith) (omega (arith, top, pos))))

fee_of-Within :
    (percent gross : ℕ)
    → percent ≤ 10000
    → gross ≤ 2 ^ 45
    → Within (10000 * fee_of percent gross) (percent * gross) 5104
unfolding fee_of times math_round
fee_of-Within percent gross h small =
    let y = percent_rate (double_of percent 100) in
    let d = 2 ^ y.shift in
    let pos : 0 < d = unit_pos y.shift in
    let low : y.mantissa ≤ 1 * d = percent_rate-IsAtMost _ (percent-IsAtMost percent h) in
    let z = double_of (gross * y.mantissa) d in
    let e = 2 ^ z.shift in
    let part : gross * y.mantissa ≤ gross * (1 * d) = mul-le-mul_left gross low in
    let whole : d * gross ≤ d * 2 ^ 45 = mul-le-mul_left d small in
    let room : gross * y.mantissa * 2 ^ 7 < 2 ^ 53 * d = grind (arith, part, whole, pos) in
    let e_pos : 0 < e = unit_pos z.shift in
    let twice : 0 < 2 * e = omega (arith, e_pos) in
    whole-Within percent gross z.mantissa e _ e_pos (div-mul-le_self _ (2 * e))
      (grind (arith, lt-div-mul-add {a = 2 * z.mantissa + e} twice))
      (product-Within percent gross y.mantissa d z.mantissa e pos
        (unit_big 7 z.shift (double_of-shift 7 (gross * y.mantissa) d (omega arith) room))
        (scaled-Within percent gross y.mantissa d small (rate_of-Within percent h))
        (double_of-IsNear (gross * y.mantissa) d pos))

-- Where the percentage that is charged, of at most two decimals, is at most 100%, and the gross amount at most 2^45 rupiah: the
-- fee, though each operation on doubles is rounded, is within 0.5104 rupiah of the exact percentage of
-- the gross amount; and it is never more than the gross amount, so that the fee and the net payout
-- add up to it.
pub payout_split :
    (p : StoreSettlementParams)
    → percent_of p ≤ 10000
    → p.gross_amount ≤ 2 ^ 45
    → (10000 * platform_fee p ≤ percent_of p * p.gross_amount + 5104)
      × (percent_of p * p.gross_amount ≤ 10000 * platform_fee p + 5104)
      × (platform_fee p + net_payout p ≡ p.gross_amount)
unfolding platform_fee net_payout net_of
payout_split p h small =
    let near = fee_of-Within (percent_of p) p.gross_amount h small in
    (near.0, near.1, omega (arith, fee_of-le (percent_of p) p.gross_amount h))
