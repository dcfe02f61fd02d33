-- ===== src/Text/Laws.antt =====
-- Laws of the text operations.
use Prim.Native.Char.{Char, code}
use Prim.Native.String
use Prim.Native.String.append
use Prim.Native.String.{◌++◌}
use sera_core.Prelude.{
  is_empty, eq_iff, ◌∙◌, ap, Bool-cases, inl, inr, if◌then◌else◌, ℕ, ◌-◌, ◌<◌, ◌≡◌, refl, String,
  Bool, true, false, some, [], ◌∷◌, leb, nat_eq, arith, zero, suc,
}
use text.Mathlib.TextLemmas.{nil-append, cons-append}
use sera_core.Text.{
  lower_char, to_lower, strip_prefix, split_on, is_space, trim, trim_start, trim_end,
}

-- a text compared with itself, one character at a time
nat_eq_refl : (n : ℕ) → nat_eq n n ≡ true
nat_eq_refl n = ground arith

pub strip_prefix-append : (p s : String) → strip_prefix p (p ++ s) ≡ some s
unfolding strip_prefix
strip_prefix-append String.[] s = rw nil-append
strip_prefix-append (String.◌∷◌ d p) s = rw cons-append (rw nat_eq_refl (strip_prefix-append p s))

-- no character of the text has the code `sep`
abbrev pub Free : ℕ → String → Type 0
Free sep String.[] = Unit
Free sep (String.◌∷◌ c s) = (nat_eq (code c) sep ≡ false) × Free sep s

pub split_on-Free : (sep : ℕ) (s : String) → Free sep s → split_on sep s ≡ s ∷ []
unfolding split_on
split_on-Free sep String.[] h = refl
split_on-Free sep (String.◌∷◌ c s) h = rw (h.0, split_on-Free sep s h.1)

pub split_on-append :
    (sep : ℕ) (c : Char) (a b : String)
    → nat_eq (code c) sep ≡ true
    → Free sep a
    → split_on sep (a ++ String.◌∷◌ c b) ≡ a ∷ split_on sep b
unfolding split_on
split_on-append sep c String.[] b e h = rw (nil-append, e)
split_on-append sep c (String.◌∷◌ d a) b e h =
    rw cons-append (rw (h.0, split_on-append sep c a b e h.1))

abbrev is_lower_letter : ℕ → Bool
is_lower_letter i = leb 97 (code (Prim.Native.String.char_at "abcdefghijklmnopqrstuvwxyz" i))

-- a test of all numbers below a bound, for the tables of letters and digits
unfoldable pub all_below : (ℕ → Bool) → ℕ → Bool
all_below test zero = true
all_below test (suc bound) =
    let before = all_below test bound in if test bound then before else false

pub all_below_lem :
    (test : ℕ → Bool) (i bound : ℕ) → all_below test bound ≡ true → i < bound → test i ≡ true
unfolding all_below
all_below_lem test i zero table below = absurd (omega arith)
all_below_lem test i (suc bound) table below = elim (Bool-cases (test bound)) [
  | inl e ↦ ground (arith, all_below_lem test i bound)
  | inr e ↦ let impossible = rw e at table in cc
]

lower_letters_table : all_below is_lower_letter 26 ≡ true
unfolding all_below
lower_letters_table = refl

lower_char_idem : (c : Char) → lower_char (lower_char c) ≡ lower_char c
unfolding lower_char
lower_char_idem c =
    ground (arith, all_below_lem is_lower_letter (code c - 65) 26 lower_letters_table)

pub to_lower_idem : (s : String) → to_lower (to_lower s) ≡ to_lower s
unfolding to_lower
to_lower_idem String.[] = refl
to_lower_idem (String.◌∷◌ c s) = cc (lower_char_idem c, to_lower_idem s)

-- no character is white space
abbrev pub IsPlain : String → Type 0
IsPlain String.[] = Unit
IsPlain (String.◌∷◌ c s) = (is_space c ≡ false) × IsPlain s

trim_end-IsPlain : (s : String) → IsPlain s → trim_end s ≡ s
unfolding trim_end
trim_end-IsPlain String.[] h = refl
trim_end-IsPlain (String.◌∷◌ c s) h = rw (h.0, trim_end-IsPlain s h.1)

trim_start-IsPlain : (s : String) → IsPlain s → trim_start s ≡ s
unfolding trim_start
trim_start-IsPlain String.[] h = refl
trim_start-IsPlain (String.◌∷◌ c s) h = rw h.0

pub trim-IsPlain : (s : String) → IsPlain s → trim s ≡ s
unfolding trim
trim-IsPlain s h = rw (trim_start-IsPlain s h) (trim_end-IsPlain s h)

pub IsPlain-append : (s t : String) → IsPlain s → IsPlain t → IsPlain (s ++ t)
IsPlain-append String.[] t h k = rw nil-append k
IsPlain-append (String.◌∷◌ c s) t h k = rw cons-append (h.0, IsPlain-append s t h.1 k)

-- a text that starts with a character is not empty
pub cons-filled : (c : Char) (s : String) → is_empty (String.◌∷◌ c s) ≡ false
cons-filled c s = elim (Bool-cases (is_empty (String.◌∷◌ c s))) [
  | inl e ↦ let k = (eq_iff (String.◌∷◌ c s) "").0 e in cc
  | inr e ↦ e
]

abbrev pub dot : Char
dot = Char.char 46 tt

pub dot-append : (s : String) → "." ++ s ≡ String.◌∷◌ dot s
dot-append s = cons-append dot String.[] s ∙ ap (String.◌∷◌ dot) (nil-append s)
