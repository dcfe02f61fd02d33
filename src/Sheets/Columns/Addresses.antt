-- ===== src/Sheets/Columns/Addresses.antt =====
-- SpreadsheetChartBuilder.ts: an address that is written from a column and a row.
use Prim.Native.Char.{Char, code}
use Prim.Native.String
use Prim.Native.String.append
use Prim.Native.String.{◌++◌}
use text.Mathlib.TextLemmas.{nil-append, cons-append}
use sera_core.Prelude.{
  ℕ, zero, suc, ◌-◌, ◌+◌, ◌*◌, ◌/◌, ◌%◌, ◌≤◌, ◌<◌, ◌≡◌, refl, ap, sym, subst, ◌∙◌, is_empty, String,
  Bool, true, false, ltb, nat_eq, some, arith, Bool-cases, inl, inr, if◌then◌else◌,
}
use sera_core.Text.{to_upper, upper_char, decimal, decimal_onto, text_length}
use sera_core.Text.Laws.{all_below, all_below_lem, IsPlain, trim-IsPlain, cons-filled}
use sera_core.Sheets.Columns.{
  letter_at, letters_onto, is_upper, is_digit, split_letters, all_digits, parse_int,
  get_column_letter, parse_text, pos, column_letter_to_index, parse_cell_address, address_of,
  at_least_zero,
}
use sera_core.Sheets.Columns.Letters.{letter_at_code, get_column_letter-index}

-- every character of a text passes a test
abbrev All : (Char → Bool) → String → Type 0
All test String.[] = Unit
All test (String.◌∷◌ c s) = (test c ≡ true) × All test s

All-append : (test : Char → Bool) (s t : String) → All test s → All test t → All test (s ++ t)
All-append test String.[] t h k = rw nil-append k
All-append test (String.◌∷◌ c s) t h k = rw cons-append (h.0, All-append test s t h.1 k)

All-mono :
    (test test' : Char → Bool)
    → ((c : Char) → test c ≡ true → test' c ≡ true)
    → (s : String) → All test s
    → All test' s
All-mono test test' f String.[] h = tt
All-mono test test' f (String.◌∷◌ c s) h = (f c h.0, All-mono test test' f s h.1)

-- a character of an address
abbrev is_named : Char → Bool
is_named c = if is_upper c then true else is_digit c

to_upper-named : (s : String) → All is_named s → to_upper s ≡ s
unfolding to_upper upper_char
to_upper-named String.[] h = refl
to_upper-named (String.◌∷◌ c s) h = let e = h.0 in let rest = to_upper-named s h.1 in ground arith

named-IsPlain : (s : String) → All is_named s → IsPlain s
named-IsPlain String.[] h = tt
named-IsPlain (String.◌∷◌ c s) h = (let e = h.0 in ground arith, named-IsPlain s h.1)

split_letters-digits : (d : String) → All is_digit d → split_letters d ≡ ("", d)
unfolding split_letters
split_letters-digits String.[] h = refl
split_letters-digits (String.◌∷◌ c d) h = let e = h.0 in ground arith

split_letters-append :
    (l d : String) → All is_upper l → All is_digit d → split_letters (l ++ d) ≡ (l, d)
unfolding split_letters
split_letters-append String.[] d h k = rw nil-append (split_letters-digits d k)
split_letters-append (String.◌∷◌ c l) d h k =
    rw cons-append (rw (h.0, split_letters-append l d h.1 k) refl)

all_digits-All : (d : String) → All is_digit d → all_digits d ≡ true
unfolding all_digits
all_digits-All String.[] h = refl
all_digits-All (String.◌∷◌ c d) h = rw h.0 (all_digits-All d h.1)

abbrev digit_at : ℕ → Char
digit_at i = Prim.Native.String.char_at "0123456789" i

abbrev is_digit_code : ℕ → Bool
is_digit_code i = nat_eq (code (digit_at i)) (b'0' + i)

digits_table : all_below is_digit_code 10 ≡ true
unfolding all_below
digits_table = refl

digit_at_code : (i : ℕ) → i < 10 → code (digit_at i) ≡ b'0' + i
digit_at_code i below = let e = all_below_lem is_digit_code i 10 digits_table below in ground arith

-- the digits of a number are digits, and read back as the number
decimal_onto-All :
    (fuel n : ℕ) (acc : String) → All is_digit acc → All is_digit (decimal_onto fuel n acc)
unfolding decimal_onto
decimal_onto-All zero n acc h = h
decimal_onto-All (suc fuel) n acc h =
    let e = digit_at_code (n % 10) (omega arith) in
    let front : All is_digit (String.◌∷◌ (digit_at (n % 10)) acc) = (ground arith, h) in
    elim (Bool-cases (ltb n 10)) [
      | inl e' ↦ rw e' front
      | inr e' ↦ rw e' (decimal_onto-All fuel (n / 10) (String.◌∷◌ (digit_at (n % 10)) acc) front)
    ]

parse_int-decimal_onto :
    (fuel n : ℕ) (acc : String) → n < fuel → parse_int 0 (decimal_onto fuel n acc) ≡ parse_int n acc
unfolding decimal_onto parse_int
parse_int-decimal_onto zero n acc h = absurd (omega arith)
parse_int-decimal_onto (suc fuel) n acc h =
    let e = digit_at_code (n % 10) (omega arith) in
    elim (Bool-cases (ltb n 10)) [
      | inl e' ↦ rw e' (ap (λ k. parse_int k acc) (ground arith))
      | inr e' ↦ rw e' (
          parse_int-decimal_onto fuel (n / 10) (String.◌∷◌ (digit_at (n % 10)) acc) (ground arith)
          ∙ ap (λ k. parse_int k acc) (omega arith))
    ]

-- the letters of a column are capital, and at most three for a column up to ZZZ
letters_onto-All :
    (fuel n : ℕ) (acc l : String)
    → letters_onto fuel n acc ≡ some l
    → All is_upper acc
    → All is_upper l
unfolding letters_onto
letters_onto-All fuel zero acc l e h = let e' : acc ≡ l = cc in subst (All is_upper) e' h
letters_onto-All zero (suc n) acc l e h = absurd cc
letters_onto-All (suc fuel) (suc n) acc l e h =
    let k = letter_at_code (n % 26) (omega arith) in
    letters_onto-All fuel (n / 26) (String.◌∷◌ (letter_at (n % 26)) acc) l e (ground arith, h)

abbrev last_column : ℕ → ℕ
last_column zero = 0
last_column (suc letters) = 26 * last_column letters + 26

letters_onto-length-le :
    (fuel n rounds : ℕ) (acc l : String)
    → letters_onto fuel n acc ≡ some l
    → n ≤ last_column rounds
    → text_length l ≤ text_length acc + rounds
unfolding letters_onto text_length
letters_onto-length-le fuel zero rounds acc l e h = let e' : acc ≡ l = cc in grind (arith, e')
letters_onto-length-le zero (suc n) rounds acc l e h = absurd cc
letters_onto-length-le (suc fuel) (suc n) zero acc l e h = absurd (omega arith)
letters_onto-length-le (suc fuel) (suc n) (suc rounds) acc l e h =
    let k =
      letters_onto-length-le fuel (n / 26) rounds (String.◌∷◌ (letter_at (n % 26)) acc) l e
        (omega arith) in
    omega arith

le-letters_onto-length :
    (fuel n : ℕ) (acc l : String)
    → letters_onto fuel n acc ≡ some l
    → text_length acc ≤ text_length l
unfolding letters_onto text_length
le-letters_onto-length fuel zero acc l e = let e' : acc ≡ l = cc in grind (arith, e')
le-letters_onto-length zero (suc n) acc l e = absurd cc
le-letters_onto-length (suc fuel) (suc n) acc l e =
    let k = le-letters_onto-length fuel (n / 26) (String.◌∷◌ (letter_at (n % 26)) acc) l e in
    omega arith

letters-filled :
    (fuel n : ℕ) (l : String) → letters_onto fuel n "" ≡ some l → 0 < n → 1 ≤ text_length l
unfolding letters_onto text_length
letters-filled fuel zero l e h = absurd (omega arith)
letters-filled zero (suc n) l e h = absurd cc
letters-filled (suc fuel) (suc n) l e h =
    le-letters_onto-length fuel (n / 26) (String.◌∷◌ (letter_at (n % 26)) "") l e

append-filled : (s t : String) → 1 ≤ text_length s → is_empty (s ++ t) ≡ false
unfolding text_length
append-filled String.[] t h = absurd (omega arith)
append-filled (String.◌∷◌ c s) t h = rw cons-append (cons-filled c (s ++ t))

decimal-All : (n : ℕ) → All is_digit (decimal n)
unfolding decimal
decimal-All n = decimal_onto-All (suc n) n "" tt

parse_int-decimal : (n : ℕ) → parse_int 0 (decimal n) ≡ n
unfolding decimal parse_int
parse_int-decimal n = parse_int-decimal_onto (suc n) n "" (omega arith)

address-named : (l d : String) → All is_upper l → All is_digit d → All is_named (l ++ d)
address-named l d h k =
    All-append is_named l d (All-mono is_upper is_named (λ c e. rw e refl) l h)
      (All-mono is_digit is_named (λ c e. ground arith) d k)

parse_text-named :
    (l d : String) → All is_upper l → All is_digit d → parse_text (l ++ d) ≡ address_of (l, d)
unfolding parse_text
parse_text-named l d h k =
    let named = address-named l d h k in
    rw
      (
        trim-IsPlain (l ++ d) (named-IsPlain (l ++ d) named),
        to_upper-named (l ++ d) named,
        split_letters-append l d h k,
      )
      refl

address_of-fits :
    (l d : String)
    → 1 ≤ text_length l
    → text_length l ≤ 3
    → all_digits d ≡ true
    → address_of (l, d) ≡ record {
      row_index = parse_int 0 d - 1;
      column_index = at_least_zero (column_letter_to_index l);
    }
unfolding address_of
address_of-fits l d h k e = ground arith

index-get_column_letter :
    (n : ℕ) (l : String)
    → get_column_letter n ≡ some l
    → 0 < n
    → column_letter_to_index l ≡ pos (n - 1)
index-get_column_letter n l e h =
    let r = get_column_letter-index n h in
    let same : r.0 ≡ l = cc (e, r.1) in sym (ap column_letter_to_index same) ∙ r.2

-- The address that is written with the letters of a column, up to ZZZ, and a row reads back as the
-- row and the column, both counted from 0.
pub parse_cell_address-written :
    (n row : ℕ) (letters : String)
    → get_column_letter n ≡ some letters
    → 0 < n
    → n ≤ 18278
    → parse_cell_address (some (letters ++ decimal row))
      ≡ record { row_index = row - 1; column_index = n - 1 }
unfolding parse_cell_address get_column_letter at_least_zero text_length
parse_cell_address-written n row letters e h k =
    let upper = letters_onto-All n n "" letters e tt in
    let digits = decimal-All row in
    let filled = letters-filled n n letters e h in
    let short = letters_onto-length-le n n 3 "" letters e k in
    rw
      (
        append-filled letters (decimal row) filled,
        parse_text-named letters (decimal row) upper digits,
        address_of-fits letters (decimal row) filled short (all_digits-All (decimal row) digits),
        parse_int-decimal row,
        index-get_column_letter n letters e h,
      )
      refl
