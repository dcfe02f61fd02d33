-- ===== src/Sheets/Columns.antt =====
-- SpreadsheetChartBuilder.ts of src/capabilities/google-drive/spreadsheet/: column letters and cell
-- addresses. The index of a column is an integer, since that of a text of other characters can be
-- negative; the number of a row is read without a bound.
pub mod Letters
pub mod Addresses
use Prim.Native.Char.{Char, code}
use Prim.Native.String
use sera_core.Prelude.{
  ℕ, zero, suc, ◌-◌, ◌+◌, ◌*◌, ◌/◌, ◌%◌, String, Bool, true, false, ◌&&◌, ◌==◌, leb, Option, none,
  some, if◌then◌else◌,
}
use sera_core.Text.{to_upper, trim, upper_letters, text_length}

pub data ℤ : Type 0 where
  pos : ℕ → ℤ
  negsuc : ℕ → ℤ

-- the integer a - b
unfoldable pub difference : ℕ → ℕ → ℤ
difference a b = if leb b a then pos (a - b) else negsuc (b - a - 1)

-- k * z + c - d
unfoldable pub shift : ℕ → ℤ → ℕ → ℕ → ℤ
unfolding difference
shift k (pos n) c d = difference (k * n + c) d
shift k (negsuc n) c d = difference c (k * suc n + d)

-- `Math.max(0, z)`
unfoldable pub at_least_zero : ℤ → ℕ
at_least_zero (pos n) = n
at_least_zero (negsuc n) = 0

-- `String.fromCharCode(65 + rem)`, for a remainder by 26
abbrev pub letter_at : ℕ → Char
letter_at rem = Prim.Native.String.char_at upper_letters rem

-- the loop, with a bound on its rounds; `none` is a loop that the bound has cut off
unfoldable pub letters_onto : (fuel : ℕ) → ℕ → String → Option String
letters_onto fuel zero letter = some letter
letters_onto zero (suc n) letter = none
letters_onto (suc fuel) (suc n) letter =
    letters_onto fuel (n / 26) (String.◌∷◌ (letter_at (n % 26)) letter)

-- as many rounds as the number of the column
unfoldable pub get_column_letter : ℕ → Option String
get_column_letter col_num = letters_onto col_num col_num ""

unfoldable pub index_onto : ℤ → String → ℤ
index_onto index String.[] = index
index_onto index (String.◌∷◌ c letter) = index_onto (shift 26 index (code c) 64) letter

unfoldable pub column_letter_to_index : String → ℤ
column_letter_to_index letter = shift 1 (index_onto (pos 0) letter) 0 1

abbrev pub is_upper : Char → Bool
is_upper c = leb 65 (code c) && leb (code c) 90

abbrev pub is_digit : Char → Bool
is_digit c = leb b'0' (code c) && leb (code c) b'9'

-- the letters at the start of a text and what follows them
unfoldable pub split_letters : String → String × String
split_letters String.[] = ("", "")
split_letters (String.◌∷◌ c s) =
    let rest = split_letters s in
    if is_upper c then (String.◌∷◌ c rest.0, rest.1) else ("", String.◌∷◌ c s)

unfoldable pub all_digits : String → Bool
all_digits String.[] = true
all_digits (String.◌∷◌ c s) = is_digit c && all_digits s

-- `parseInt(digits, 10)`
unfoldable pub parse_int : ℕ → String → ℕ
parse_int n String.[] = n
parse_int n (String.◌∷◌ c s) = parse_int (10 * n + (code c - b'0')) s

pub record CellAddress : Type 0 where
  pub row_index : ℕ
  pub column_index : ℕ

abbrev pub default_address : CellAddress
default_address = record { row_index = 1; column_index = 6 }

-- a text of letters alone is in row 0, as `0 - 1` is here
unfoldable pub address_of : String × String → CellAddress
address_of (letters, digits) =
    if leb 1 (text_length letters) && leb (text_length letters) 3 && all_digits digits
    then record {
      row_index = parse_int 0 digits - 1;
      column_index = at_least_zero (column_letter_to_index letters);
    }
    else default_address

unfoldable pub parse_text : String → CellAddress
parse_text address = address_of (split_letters (to_upper (trim address)))

unfoldable pub parse_cell_address : Option String → CellAddress
parse_cell_address none = parse_text "G2"
parse_cell_address (some address) = if address == "" then default_address else parse_text address
