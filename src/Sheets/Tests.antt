-- ===== src/Sheets/Tests.antt =====
-- Runs of the column letters and the cell addresses, and each theorem at an input.
use Prim.Native.String.{◌++◌}
use sera_core.Prelude.{◌≡◌, refl, String, some, arith}
use sera_core.Text.{to_upper, upper_char, trim, trim_start, trim_end, text_length, decimal}
use sera_core.Sheets.Columns
use sera_core.Sheets.Columns.Letters.{get_column_letter-index}
use sera_core.Sheets.Columns.Addresses.{parse_cell_address-written}

code : Unit {0}
unfolding to_upper upper_char trim trim_start trim_end text_length Columns.difference Columns.shift
    Columns.at_least_zero Columns.letters_onto Columns.get_column_letter Columns.index_onto
    Columns.column_letter_to_index Columns.split_letters Columns.all_digits Columns.parse_int
    Columns.address_of Columns.parse_text Columns.parse_cell_address
code = tt

three_letters : Columns.get_column_letter 18278 ≡ some "ZZZ"
unfolding code
three_letters = refl

negative_index : Columns.column_letter_to_index "" ≡ Columns.negsuc 0
unfolding code
negative_index = refl

lower_case :
    Columns.parse_cell_address (some " ab12 ") ≡ record { row_index = 11; column_index = 27 }
unfolding code
lower_case = refl

four_letters : Columns.parse_cell_address (some "ABCD1") ≡ Columns.default_address
unfolding code
four_letters = refl

no_row : Columns.parse_cell_address (some "E") ≡ record { row_index = 0; column_index = 4 }
unfolding code
no_row = refl

get_column_letter-index_example :
    (letter : String) × (Columns.get_column_letter 703 ≡ some letter)
    × (Columns.column_letter_to_index letter ≡ Columns.pos 702)
get_column_letter-index_example = get_column_letter-index 703 (omega arith)

column_28 : Columns.get_column_letter 28 ≡ some "AB"
unfolding code
column_28 = refl

parse_cell_address-written_example :
    Columns.parse_cell_address (some ("AB" ++ decimal 12))
    ≡ record { row_index = 11; column_index = 27 }
parse_cell_address-written_example =
    parse_cell_address-written 28 12 "AB" column_28 (omega arith) (omega arith)
