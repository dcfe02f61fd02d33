-- ===== src/Chat/Shift.antt =====
-- ChatHistoryStore.ts: what the loops that shorten a list from its front leave.
use sera_core.Prelude.{
  ℕ, suc, ◌-◌, ◌≤◌, ◌≡◌, refl, List, [], ◌∷◌, ◌++◌, arith, length, length-append, drop, ltb,
  Bool-cases, inl, inr,
}
use sera_core.Chat.{shift_to}

module _ {ℓ} {A : Type ℓ} where
  -- the last elements of a list
  abbrev pub last : ℕ → List A → List A
  last n xs = drop (length xs - n) xs

  pub length-shift_to-le : (n : ℕ) (xs : List A) → length (shift_to n xs) ≤ n
  unfolding shift_to
  length-shift_to-le n [] = omega arith
  length-shift_to-le n (x ∷ xs) = ground (arith, length-shift_to-le n xs)

  pub shift_to-short : (n : ℕ) (xs : List A) → length xs ≤ n → shift_to n xs ≡ xs
  unfolding shift_to
  shift_to-short n [] h = refl
  shift_to-short n (x ∷ xs) h = ground arith

  -- the loop leaves the last elements
  pub shift_to-last : (n : ℕ) (xs : List A) → shift_to n xs ≡ last n xs
  unfolding shift_to drop
  shift_to-last n [] = let e : 0 - n ≡ 0 = omega arith in rw e refl
  shift_to-last n (x ∷ xs) = elim (Bool-cases (ltb n (suc (length xs)))) [
    | inl t ↦
        let e : suc (length xs) - n ≡ suc (length xs - n) = ground arith in
        rw (t, e) (shift_to-last n xs)
    | inr f ↦ let e : suc (length xs) - n ≡ 0 = ground arith in rw (f, e) refl
  ]

  -- what was shortened before it grew is as if it had been shortened after
  pub shift_to-append :
      (n : ℕ) (xs ys : List A) → shift_to n (shift_to n xs ++ ys) ≡ shift_to n (xs ++ ys)
  unfolding shift_to
  shift_to-append n [] ys = refl
  shift_to-append n (x ∷ xs) ys = ground (arith, length-append xs ys, shift_to-append n xs ys)
