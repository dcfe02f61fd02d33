-- ===== src/Settlement/Double/Bounds.antt =====
-- Rounding keeps below a whole number what is below it.
use Prim.Native.Nat.{◌^◌}
use native.Mathlib.Nat.{
  div-add-mod', div-le_of_le-mul, div-lt_iff_lt-mul, mul-le-mul_left, pow-succ', one-le-pow,
}
use sera_core.Prelude.{
  ℕ, zero, suc, ◌+◌, ◌*◌, ◌/◌, ◌%◌, ◌≤◌, ◌<◌, ◌≡◌, arith, leb, ltb, inl, inr, Bool-cases,
}
use sera_core.Settlement.Double.{
  Double, nearest, rounded, double_of, percent_rate, times, math_round,
}

-- a double is at most a whole number
abbrev pub IsAtMost : Double → ℕ → Type 0
IsAtMost x k = x.mantissa ≤ k * 2 ^ x.shift

nearest-le : (num den k : ℕ) → 0 < den → num ≤ k * den → nearest num den ≤ k
unfolding nearest
nearest-le num den k pos h =
    let q : num / den ≤ k = div-le_of_le-mul den (grind arith) in
    let whole = div-add-mod' num den in
    elim (Bool-cases (ltb (num / den) k)) [
      | inl below ↦ ground (arith, below)
      | inr top ↦
          let same : num / den ≡ k = ground arith in
          let none_left : num % den ≡ 0 = let w = rw same at whole in omega (arith, w, h) in
          rw (none_left, same) (ground (arith, pos))
    ]

doubled : (num den shift k : ℕ) → num ≤ k * 2 ^ shift * den → 2 * num ≤ k * 2 ^ suc shift * den
doubled num den shift k h = rw (pow-succ' 2 shift) (grind arith)

rounded-IsAtMost :
    (fuel num den shift k : ℕ)
    → 0 < den
    → num ≤ k * 2 ^ shift * den
    → IsAtMost (rounded fuel num den shift) k
unfolding rounded
rounded-IsAtMost zero num den shift k pos h = nearest-le num den (k * 2 ^ shift) pos h
rounded-IsAtMost (suc fuel) num den shift k pos h = elim (Bool-cases (leb (2 ^ 52 * den) num)) [
  | inl full ↦ rw (full, rounded) (nearest-le num den (k * 2 ^ shift) pos h)
  | inr room ↦
      rw (room, rounded)
        (rounded-IsAtMost fuel (2 * num) den (suc shift) k pos (doubled num den shift k h))
]

pub double_of-IsAtMost : (num den k : ℕ) → 0 < den → num ≤ k * den → IsAtMost (double_of num den) k
unfolding double_of
double_of-IsAtMost num den k pos h = rounded-IsAtMost 70 num den 0 k pos (grind arith)

pub percent_rate-IsAtMost : (x : Double) → IsAtMost x 100 → IsAtMost (percent_rate x) 1
unfolding percent_rate
percent_rate-IsAtMost x h =
    double_of-IsAtMost x.mantissa (100 * 2 ^ x.shift) 1
      (omega (arith, one-le-pow x.shift 2 (omega arith))) (omega (arith, h))

pub times-IsAtMost : (n : ℕ) (x : Double) → IsAtMost x 1 → IsAtMost (times n x) n
unfolding times
times-IsAtMost n x h =
    double_of-IsAtMost (n * x.mantissa) (2 ^ x.shift) n (one-le-pow x.shift 2 (omega arith))
      (mul-le-mul_left n (omega (arith, h)))

pub math_round-le : (x : Double) (k : ℕ) → IsAtMost x k → math_round x ≤ k
unfolding math_round
math_round-le x k h =
    let pos : 0 < 2 ^ x.shift = one-le-pow x.shift 2 (omega arith) in
    let big : 0 < 2 * 2 ^ x.shift = omega (arith, pos) in
    let below : 2 * x.mantissa + 2 ^ x.shift < (k + 1) * (2 * 2 ^ x.shift) =
      grind (arith, pos, h) in
    let less = (div-lt_iff_lt-mul big).1 below in omega (arith, less)
