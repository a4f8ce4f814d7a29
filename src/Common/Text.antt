-- ===== src/Common/Text.antt =====
-- Text as its list of code points, with the operations of Python's `str` that the program uses.
pub mod Decimal
use Prim.Native.Char.{code}
use Prim.Native.String.{String}
use Prim.Native.Nat.{ℕ, zero, suc, ◌+◌, ◌-◌, ◌*◌, ◌/◌, ◌%◌}
use mathlib.Core.Path.{◌≡◌, refl}
use mathlib.Core.Bool.{Bool, true, false, ◌&&◌, ◌||◌}
use mathlib.Core.Option.{Option, none, some}
use mathlib.Core.List.{List, [], ◌∷◌, ◌++◌}
use native.Mathlib.Omega.{arith}
use ssh_panel_vpn.Common.Tests.{ltb, leb, ◌==◌, if◌then◌else◌}

abbrev pub Text : Type 0
Text = List ℕ

-- The code points of a literal.
unfoldable pub codes : String → Text
codes String.[] = []
codes (String.◌∷◌ c s) = code c ∷ codes s

unfoldable pub text_eq : Text → Text → Bool
text_eq [] [] = true
text_eq [] (b ∷ t) = false
text_eq (a ∷ s) [] = false
text_eq (a ∷ s) (b ∷ t) = a == b && text_eq s t

pub text_eq_refl : (s : Text) → text_eq s s ≡ true
unfolding text_eq
text_eq_refl [] = refl
text_eq_refl (a ∷ s) = ground (arith, text_eq_refl s)

pub text_eq_sound : (s t : Text) → text_eq s t ≡ true → s ≡ t
unfolding text_eq
text_eq_sound [] [] h = refl
text_eq_sound [] (b ∷ t) h = cc
text_eq_sound (a ∷ s) [] h = cc
text_eq_sound (a ∷ s) (b ∷ t) h = ground (arith, text_eq_sound s t)

pub text_eq_comm : (s t : Text) → text_eq s t ≡ text_eq t s
unfolding text_eq
text_eq_comm [] [] = refl
text_eq_comm [] (b ∷ t) = refl
text_eq_comm (a ∷ s) [] = refl
text_eq_comm (a ∷ s) (b ∷ t) = ground (arith, text_eq_comm s t)

-- Pieces of a formatted text side by side.
unfoldable pub concat : List Text → Text
concat [] = []
concat (t ∷ l) = t ++ concat l

-- `str(n)`: the last digit is appended after those of the quotient; fuel above `n` suffices.
digits_from : ℕ → ℕ → Text
digits_from zero n = []
digits_from (suc f) n =
    let more = digits_from f (n / 10) ++ (48 + n % 10) ∷ [] in
    if ltb n 10 then (48 + n) ∷ [] else more

unfoldable pub decimal : ℕ → Text
unfolding digits_from
decimal n = digits_from (suc n) n

-- `str.isdigit` of one ASCII character.
abbrev pub is_digit : ℕ → Bool
is_digit c = leb 48 c && leb c 57

-- `f"{n:0wd}"`: zeros on the left up to a width.
unfoldable pub zeros : ℕ → Text
zeros zero = []
zeros (suc n) = 48 ∷ zeros n

-- `str.isspace` of one character, the set that `strip` and `split` use.
unfoldable pub is_space : ℕ → Bool
is_space c =
    (leb 9 c && leb c 13)
    || (leb 28 c && leb c 32)
    || (c == 133 || c == 160)
    || c == 5760
    || (leb 8192 c && leb c 8202)
    || (c == 8232 || c == 8233)
    || (c == 8239 || c == 8287)
    || c == 12288

-- `s.lstrip()`
unfoldable pub lstrip : Text → Text
unfolding is_space
lstrip [] = []
lstrip (c ∷ s) = let rest = lstrip s in if is_space c then rest else c ∷ s

abbrev keep_unless_blank : ℕ → Text → Text
keep_unless_blank c [] = if is_space c then [] else c ∷ []
keep_unless_blank c (d ∷ s) = c ∷ d ∷ s

-- `s.rstrip()`
unfoldable pub rstrip : Text → Text
unfolding is_space
rstrip [] = []
rstrip (c ∷ s) = keep_unless_blank c (rstrip s)

unfoldable pub strip : Text → Text
unfolding lstrip rstrip
strip s = rstrip (lstrip s)

-- The first run of characters before a space, and what follows it.
unfoldable pub first_word : Text → Text × Text
unfolding is_space
first_word [] = ([], [])
first_word (c ∷ s) =
    let (word, rest) = first_word s in if is_space c then ([], c ∷ s) else (c ∷ word, rest)

-- `s.split(None, n)`: at most `n` cuts at runs of spaces, the last piece whole; with `n` at least
-- the length, `s.split()`.
unfoldable pub split_at_spaces : ℕ → Text → List Text
unfolding lstrip first_word
split_at_spaces zero s = elim (lstrip s) [ [] ↦ [] | c ∷ t ↦ (c ∷ t) ∷ [] ]
split_at_spaces (suc n) s = elim (lstrip s) [
  | [] ↦ []
  | c ∷ t ↦ (first_word (c ∷ t)).0 ∷ split_at_spaces n (first_word (c ∷ t)).1
]

-- `int(s)` of a run of ASCII digits; `none` is a `ValueError`.
unfoldable pub digits_value : ℕ → Text → Option ℕ
digits_value n [] = some n
digits_value n (c ∷ s) =
    let more = digits_value (n * 10 + (c - 48)) s in if is_digit c then more else none

unfoldable pub parse_int : Text → Option ℕ
unfolding digits_value
parse_int [] = none
parse_int (c ∷ s) = digits_value 0 (c ∷ s)

-- `not s`
abbrev pub is_empty : Text → Bool
is_empty [] = true
is_empty (c ∷ s) = false

-- The rest of a text behind a prefix.
unfoldable pub starts_with : Text → Text → Option Text
starts_with [] s = some s
starts_with (a ∷ p) [] = none
starts_with (a ∷ p) (c ∷ s) = let more = starts_with p s in if a == c then more else none

-- The line ends of `str.splitlines`; a `\r\n` ends one line.
unfoldable pub is_line_end : ℕ → Bool
is_line_end c =
    (leb 10 c && leb c 13) || (leb 28 c && leb c 30) || c == 133 || c == 8232 || c == 8233

-- The lines of what follows, the current one so far, and whether a carriage return ended the last.
lines_from : Bool → Text → Text → List Text
unfolding is_line_end
lines_from cr cur [] = if is_empty cur then [] else cur ∷ []
lines_from cr cur (c ∷ s) =
    let skipped = lines_from false cur s in
    let cut = cur ∷ lines_from (c == 13) [] s in
    let longer = lines_from false (cur ++ c ∷ []) s in
    if cr && c == 10 then skipped else if is_line_end c then cut else longer

unfoldable pub splitlines : Text → List Text
unfolding lines_from
splitlines s = lines_from false [] s
