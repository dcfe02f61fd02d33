-- ===== src/Text.antt =====
-- The operations of JavaScript's `String` that the program uses, over the code points of a text.
-- `toLowerCase` and the character classes are those of ASCII.
pub mod Laws
use Prim.Native.Char.{Char, code}
use Prim.Native.String
use sera_core.Prelude.{
  ℕ, zero, suc, ◌-◌, ◌%◌, ◌/◌, String, Bool, true, false, ltb, Option, none, some, List, [], ◌∷◌,
  ◌&&◌, ◌||◌, ◌==◌, leb, nat_eq, if◌then◌else◌, is_some,
}
use text.Mathlib.Text.{find?, is_eq}

abbrev lower_letters : String
lower_letters = "abcdefghijklmnopqrstuvwxyz"

unfoldable pub lower_char : Char → Char
lower_char c =
    if leb 65 (code c) && leb (code c) 90
    then Prim.Native.String.char_at lower_letters (code c - 65)
    else c

-- `s.toLowerCase()`
unfoldable pub to_lower : String → String
unfolding lower_char
to_lower String.[] = String.[]
to_lower (String.◌∷◌ c s) = String.◌∷◌ (lower_char c) (to_lower s)

abbrev pub upper_letters : String
upper_letters = "ABCDEFGHIJKLMNOPQRSTUVWXYZ"

unfoldable pub upper_char : Char → Char
upper_char c =
    if leb 97 (code c) && leb (code c) 122
    then Prim.Native.String.char_at upper_letters (code c - 97)
    else c

-- `s.toUpperCase()`
unfoldable pub to_upper : String → String
unfolding upper_char
to_upper String.[] = String.[]
to_upper (String.◌∷◌ c s) = String.◌∷◌ (upper_char c) (to_upper s)

-- `s.startsWith(p) ? s.slice(p.length) : undefined`, also written `s.replace(p, '')` behind the test
unfoldable pub strip_prefix : String → String → Option String
strip_prefix String.[] s = some s
strip_prefix (String.◌∷◌ d p) String.[] = none
strip_prefix (String.◌∷◌ d p) (String.◌∷◌ c s) =
    if nat_eq (code d) (code c) then strip_prefix p s else none

-- `s.startsWith(p)`
abbrev pub starts_with : String → String → Bool
starts_with s p = is_some (strip_prefix p s)

-- `s.endsWith(p)`, by the bytes of UTF-8
abbrev pub ends_with : String → String → Bool
ends_with s p =
    leb (Prim.Native.String.len p) (Prim.Native.String.len s)
    && Prim.Native.String.slice s (Prim.Native.String.len s - Prim.Native.String.len p)
        (Prim.Native.String.len s)
      == p

-- `s.includes(p)`
abbrev pub includes : String → String → Bool
includes s p = is_some (find? s p)

-- `s.split('.')`, one character at a time
split_onto : Char → List String → List String
split_onto c [] = String.◌∷◌ c String.[] ∷ []
split_onto c (w ∷ ws) = String.◌∷◌ c w ∷ ws

unfoldable pub split_on : ℕ → String → List String
unfolding split_onto
split_on sep String.[] = "" ∷ []
split_on sep (String.◌∷◌ c s) =
    let rest = split_on sep s in if nat_eq (code c) sep then "" ∷ rest else split_onto c rest

-- `s.replace(/\D/g, '')`
unfoldable pub keep_digits : String → String
keep_digits String.[] = String.[]
keep_digits (String.◌∷◌ c s) =
    let rest = keep_digits s in
    if leb b'0' (code c) && leb (code c) b'9' then String.◌∷◌ c rest else rest

-- white space of ASCII, as `\s` and `trim` read it
abbrev pub is_space : Char → Bool
is_space c = nat_eq (code c) 32 || leb 9 (code c) && leb (code c) 13

unfoldable pub trim_start : String → String
trim_start String.[] = String.[]
trim_start (String.◌∷◌ c s) = let rest = trim_start s in if is_space c then rest else String.◌∷◌ c s

unfoldable pub trim_end : String → String
trim_end String.[] = String.[]
trim_end (String.◌∷◌ c s) =
    let rest = trim_end s in if is_space c && rest == "" then String.[] else String.◌∷◌ c rest

-- `s.trim()`
unfoldable pub trim : String → String
unfolding trim_start trim_end
trim s = trim_end (trim_start s)

-- a number in a template literal
unfoldable pub decimal_onto : ℕ → ℕ → String → String
decimal_onto zero n acc = acc
decimal_onto (suc fuel) n acc =
    let acc' = String.◌∷◌ (Prim.Native.String.char_at "0123456789" (n % 10)) acc in
    let rest = decimal_onto fuel (n / 10) acc' in if ltb n 10 then acc' else rest

-- `n + 1` rounds are enough, since each round divides by ten
unfoldable pub decimal : ℕ → String
unfolding decimal_onto
decimal n = decimal_onto (suc n) n ""

-- `s.length`
unfoldable pub text_length : String → ℕ
text_length String.[] = 0
text_length (String.◌∷◌ c s) = suc (text_length s)

-- `s.slice(0, n)`
unfoldable pub take_text : ℕ → String → String
take_text zero s = String.[]
take_text (suc n) String.[] = String.[]
take_text (suc n) (String.◌∷◌ c s) = String.◌∷◌ c (take_text n s)

-- `s.slice(n)`
unfoldable pub drop_text : ℕ → String → String
drop_text zero s = s
drop_text (suc n) String.[] = String.[]
drop_text (suc n) (String.◌∷◌ c s) = drop_text n s
