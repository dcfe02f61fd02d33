-- ===== src/Sheets/Columns/Letters.antt =====
-- SpreadsheetChartBuilder.ts: the letters of a column and its index.
use Prim.Native.Char.{code}
use sera_core.Prelude.{
  ℕ, zero, suc, ◌-◌, ◌+◌, ◌*◌, ◌/◌, ◌%◌, ◌≤◌, ◌<◌, ◌≡◌, refl, ap, ◌∙◌, String, Bool, true, nat_eq,
  some, arith,
}
use sera_core.Text.Laws.{all_below, all_below_lem}
use sera_core.Sheets.Columns.{
  pos, difference, shift, letter_at, letters_onto, get_column_letter, index_onto,
  column_letter_to_index,
}

abbrev is_letter_code : ℕ → Bool
is_letter_code i = nat_eq (code (letter_at i)) (65 + i)

letters_table : all_below is_letter_code 26 ≡ true
unfolding all_below
letters_table = refl

pub letter_at_code : (i : ℕ) → i < 26 → code (letter_at i) ≡ 65 + i
letter_at_code i below =
    let e = all_below_lem is_letter_code i 26 letters_table below in ground arith

shift-pos : (n c d : ℕ) → d ≤ 26 * n + c → shift 26 (pos n) c d ≡ pos (26 * n + c - d)
unfolding shift difference
shift-pos n c d h = ground arith

-- a letter in front stands for the number of the column that the loop has divided
index_onto-letter :
    (n : ℕ) (letter : String)
    → index_onto (pos (n / 26)) (String.◌∷◌ (letter_at (n % 26)) letter)
      ≡ index_onto (pos (suc n)) letter
unfolding index_onto
index_onto-letter n letter =
    let e = letter_at_code (n % 26) (omega arith) in
    rw (e, shift-pos (n / 26) (65 + n % 26) 64 (omega arith))
      (ap (λ k. index_onto (pos k) letter) (omega arith))

-- the loop ends within the rounds that it is given, and its letters read back as the number
letters_onto_lem :
    (fuel n : ℕ) (letter : String)
    → n ≤ fuel
    → (l : String) × (letters_onto fuel n letter ≡ some l)
      × (index_onto (pos 0) l ≡ index_onto (pos n) letter)
unfolding letters_onto
letters_onto_lem fuel zero letter h = (letter, refl, refl)
letters_onto_lem zero (suc n) letter h = absurd (omega arith)
letters_onto_lem (suc fuel) (suc n) letter h =
    let r = letters_onto_lem fuel (n / 26) (String.◌∷◌ (letter_at (n % 26)) letter) (omega arith) in
    (r.0, r.1, r.2 ∙ index_onto-letter n letter)

-- The letters of every column, however large, are found within as many rounds of the loop as its
-- number, and read back as the index of the column.
pub get_column_letter-index :
    (n : ℕ)
    → 0 < n
    → (letter : String) × (get_column_letter n ≡ some letter)
      × (column_letter_to_index letter ≡ pos (n - 1))
unfolding get_column_letter column_letter_to_index index_onto shift difference
get_column_letter-index n h =
    let r = letters_onto_lem n n "" (omega arith) in (r.0, r.1, rw r.2 (ground arith))
