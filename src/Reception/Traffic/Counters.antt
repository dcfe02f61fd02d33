-- ===== src/Reception/Traffic/Counters.antt =====
-- src/reception/publicReceptionRouter.ts: a counter that starts again on each new day.
use sera_core.Prelude.{
  ℕ, ◌+◌, ◌≤◌, ◌<◌, ◌≡◌, refl, ap, ◌∙◌, Bool, true, false, Option, none, some, if◌then◌else◌,
  nat_eq, arith, Bool-cases, inl, inr,
}
use sera_core.Reception.{utc_day, is_today}

-- A counter of a day: in `f` are the calls of each day. Those of the counter's day are at most what it
-- counts, there is none of a later day, its day has come, and no day has more than the limit.
abbrev pub IsTallied : ℕ → ℕ → Option ℕ → ℕ → (ℕ → ℕ) → Type 0
IsTallied limit now none n f = (d : ℕ) → f d ≡ 0
IsTallied limit now (some day) n f =
    (day ≤ utc_day now) × (f day ≤ n) × ((d : ℕ) → day < d → f d ≡ 0) × ((d : ℕ) → f d ≤ limit)

-- the count after a roll to the day of the clock
abbrev pub rolled : Bool → ℕ → ℕ
rolled true n = n
rolled false n = 0

pub roll-IsTallied :
    (limit before now : ℕ) (day : Option ℕ) (n : ℕ) (f : ℕ → ℕ)
    → before ≤ now
    → IsTallied limit before day n f
    → IsTallied limit now (some (utc_day now)) (rolled (is_today (utc_day now) day) n) f
unfolding is_today
roll-IsTallied limit before now none n f h k =
    (omega arith, omega (arith, k (utc_day now)), λ d later. k d, λ d. omega (arith, k d))
roll-IsTallied limit before now (some day) n f h k =
    let today = utc_day now in
    let past : day ≤ today = omega (arith, k.0) in
    elim (Bool-cases (nat_eq day today)) [
      | inl t ↦
          let e : day ≡ today = ground arith in
          rw t (omega arith, omega (arith, k.1, ap f e), λ d later. k.2 d (omega (arith, e)), k.3)
      | inr n' ↦
          let new : day < today = ground arith in
          rw n'
            (omega arith, omega (arith, k.2 today new), λ d later. k.2 d (omega (arith, new)), k.3)
    ]

-- one more call of the day of the clock
pub count-IsTallied :
    (limit now n : ℕ) (f g : ℕ → ℕ)
    → n < limit
    → ((d : ℕ) → g d ≡ (if nat_eq (utc_day now) d then 1 else 0) + f d)
    → IsTallied limit now (some (utc_day now)) n f
    → IsTallied limit now (some (utc_day now)) (n + 1) g
count-IsTallied limit now n f g h e k = (
  omega arith,
  (let z = e (utc_day now) in ground (arith, k.1)),
  λ d later. (let z = e d in ground (arith, k.2 d later)),
  λ d. elim (Bool-cases (nat_eq (utc_day now) d)) [
    | inl t ↦
        let same : utc_day now ≡ d = ground arith in
        let z : g d ≡ 1 + f d = e d ∙ rw t refl in omega (arith, z, k.1, ap f same)
    | inr n' ↦ let z : g d ≡ 0 + f d = e d ∙ rw n' refl in omega (arith, z, k.3 d)
  ],
)

-- what is counted may be less, and the clock later
pub weaken-IsTallied :
    (limit now n m : ℕ) (day : Option ℕ) (f : ℕ → ℕ)
    → n ≤ m
    → IsTallied limit now day n f
    → IsTallied limit now day m f
weaken-IsTallied limit now n m none f h k = k
weaken-IsTallied limit now n m (some day) f h k = (k.0, omega (arith, k.1), k.2, k.3)

pub later-IsTallied :
    (limit before now n : ℕ) (day : Option ℕ) (f : ℕ → ℕ)
    → before ≤ now
    → IsTallied limit before day n f
    → IsTallied limit now day n f
later-IsTallied limit before now n none f h k = k
later-IsTallied limit before now n (some day) f h k = (omega (arith, k.0), k.1, k.2, k.3)

pub IsTallied-le :
    (limit now n d : ℕ) (day : Option ℕ) (f : ℕ → ℕ) → IsTallied limit now day n f → f d ≤ limit
IsTallied-le limit now n d none f k = omega (arith, k d)
IsTallied-le limit now n d (some day) f k = k.3 d
