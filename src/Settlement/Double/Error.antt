-- ===== src/Settlement/Double/Error.antt =====
-- How far rounding goes: half a unit of the last place, and how small that unit is.
use Prim.Native.Nat.{◌^◌}
use native.Mathlib.Nat.{div-add-mod', mul-le-mul_left, pow-succ', one-le-pow, mod-lt}
use sera_core.Prelude.{
  ℕ, zero, suc, ◌+◌, ◌*◌, ◌/◌, ◌%◌, ◌≤◌, ◌<◌, ◌≡◌, arith, leb, inl, inr, Bool-cases, ◌⊎◌,
}
use sera_core.Settlement.Double.{Double, nearest, rounded, double_of}

-- a double is a quotient, up to half a unit of the last place
abbrev IsNear : Double → ℕ → ℕ → Type 0
IsNear x num den =
    (2 * (x.mantissa * den) ≤ 2 * (num * 2 ^ x.shift) + den)
    × (2 * (num * 2 ^ x.shift) ≤ 2 * (x.mantissa * den) + den)

whole-near :
    (num den q r m : ℕ)
    → q * den + r ≡ num
    → (((m ≡ q) × (2 * r ≤ den)) ⊎ ((m ≡ q + 1) × (den ≤ 2 * r) × (r ≤ den)))
    → (2 * (m * den) ≤ 2 * num + den) × (2 * num ≤ 2 * (m * den) + den)
whole-near num den q r m w (inl (e, h)) = rw (e, ← w) (grind arith, grind arith)
whole-near num den q r m w (inr (e, h, k)) = rw (e, ← w) (grind arith, grind arith)

nearest-cases :
    (num den : ℕ)
    → 0 < den
    → ((nearest num den ≡ num / den) × (2 * (num % den) ≤ den))
      ⊎ ((nearest num den ≡ num / den + 1) × (den ≤ 2 * (num % den)) × (num % den ≤ den))
unfolding nearest
nearest-cases num den pos = ground (arith, mod-lt num pos)

nearest-near :
    (num den : ℕ)
    → 0 < den
    → (2 * (nearest num den * den) ≤ 2 * num + den) × (2 * num ≤ 2 * (nearest num den * den) + den)
nearest-near num den pos =
    whole-near num den (num / den) (num % den) (nearest num den) (div-add-mod' num den)
      (nearest-cases num den pos)

rounded-IsNear :
    (fuel num den shift n : ℕ)
    → 0 < den
    → num ≡ n * 2 ^ shift
    → IsNear (rounded fuel num den shift) n den
unfolding rounded
rounded-IsNear zero num den shift n pos h = rw (← h) (nearest-near num den pos)
rounded-IsNear (suc fuel) num den shift n pos h = elim (Bool-cases (leb (2 ^ 52 * den) num)) [
  | inl full ↦ rw (full, rounded) (rw (← h) (nearest-near num den pos))
  | inr room ↦
      rw (room, rounded)
        (rounded-IsNear fuel (2 * num) den (suc shift) n pos
          (rw (h, pow-succ' 2 shift) (grind arith)))
]

shift-le : (fuel num den shift : ℕ) → shift ≤ (rounded fuel num den shift).shift
unfolding rounded
shift-le zero num den shift = omega arith
shift-le (suc fuel) num den shift = elim (Bool-cases (leb (2 ^ 52 * den) num)) [
  | inl full ↦ rw (full, rounded) (omega arith)
  | inr room ↦ rw (room, rounded) (omega (arith, shift-le fuel (2 * num) den (suc shift)))
]

-- a quotient below 2^53 / 2^j has at least j doublings
rounded-shift :
    (j fuel num den shift : ℕ)
    → j ≤ fuel
    → num * 2 ^ j < 2 ^ 53 * den
    → shift + j ≤ (rounded fuel num den shift).shift
unfolding rounded
rounded-shift zero fuel num den shift f h = omega (arith, shift-le fuel num den shift)
rounded-shift (suc j) zero num den shift f h = omega (arith, f)
rounded-shift (suc j) (suc fuel) num den shift f h =
    let twice : 2 * num * 2 ^ j < 2 ^ 53 * den =
      let k = rw (pow-succ' 2 j) at h in grind (arith, k) in
    elim (Bool-cases (leb (2 ^ 52 * den) num)) [
      | inl full ↦
          let more : 2 * num ≤ 2 * num * 2 ^ j =
            omega (arith, mul-le-mul_left (2 * num) (one-le-pow j 2 (omega arith))) in
          absurd (ground (arith, more, twice, full))
      | inr room ↦
          rw (room, rounded)
            (omega (arith, rounded-shift j fuel (2 * num) den (suc shift) (omega (arith, f)) twice))
    ]

pub double_of-IsNear : (num den : ℕ) → 0 < den → IsNear (double_of num den) num den
unfolding double_of
double_of-IsNear num den pos = rounded-IsNear 70 num den 0 num pos (omega arith)

pub double_of-shift :
    (j num den : ℕ) → j ≤ 70 → num * 2 ^ j < 2 ^ 53 * den → j ≤ (double_of num den).shift
unfolding double_of
double_of-shift j num den f h = omega (arith, rounded-shift j 70 num den 0 f h)
