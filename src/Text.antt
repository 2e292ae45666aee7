-- ===== src/Text.antt =====
-- The character classes and patterns that the code gives to `re.fullmatch`, and the operations of
-- `str` that it uses, on native texts. Characters are ASCII where a pattern matches.
pub mod Lemmas
use Prim.Native.Nat.{◌/◌, ◌%◌}
use Prim.Native.Char.{Char, code}
use Prim.Native.String
use radius_todolist_app.Prelude.{
  ℕ, zero, suc, ◌+◌, ◌-◌, ◌*◌, String, Bool, true, false, not, ◌&&◌, ◌||◌, Option, none, some, List,
  [], ◌∷◌, str_eq, ◌==◌, ltb, leb, if◌then◌else◌,
}

abbrev pub is_lower : Char → Bool
is_lower c = leb b'a' (code c) && leb (code c) b'z'

abbrev pub is_digit : Char → Bool
is_digit c = leb b'0' (code c) && leb (code c) b'9'

abbrev pub is_alnum : Char → Bool
is_alnum c = is_lower c || is_digit c

-- [a-z0-9-]
abbrev pub is_label_char : Char → Bool
is_label_char c = is_alnum c || code c == b'-'

-- [!-~]
abbrev pub is_printable : Char → Bool
is_printable c = leb b'!' (code c) && leb (code c) b'~'

unfoldable pub text_length : String → ℕ
text_length String.[] = 0
text_length (String.◌∷◌ c s) = suc (text_length s)

unfoldable pub all_chars : (Char → Bool) → String → Bool
all_chars test String.[] = true
all_chars test (String.◌∷◌ c s) = test c && all_chars test s

unfoldable pub starts_with : (Char → Bool) → String → Bool
starts_with test String.[] = false
starts_with test (String.◌∷◌ c s) = test c

-- re.fullmatch("X{low,high}", text) for a character class X
unfoldable pub is_run : (Char → Bool) → ℕ → ℕ → String → Bool
unfolding all_chars text_length
is_run test low high s = all_chars test s && leb low (text_length s) && leb (text_length s) high

-- re.fullmatch("XY{low,high}", text)
unfoldable pub is_headed : (Char → Bool) → (Char → Bool) → ℕ → ℕ → String → Bool
unfolding is_run
is_headed head test low high String.[] = false
is_headed head test low high (String.◌∷◌ c s) = head c && is_run test low high s

-- [a-z0-9x]*[a-z0-9], for a character x
unfoldable pub ends_alnum : ℕ → String → Bool
ends_alnum x String.[] = false
ends_alnum x (String.◌∷◌ c String.[]) = is_alnum c
ends_alnum x (String.◌∷◌ c (String.◌∷◌ c' s)) =
    (is_alnum c || code c == x) && ends_alnum x (String.◌∷◌ c' s)

-- X(?:[a-z0-9x]{0,most}[a-z0-9])?
unfoldable pub is_framed : (Char → Bool) → ℕ → ℕ → String → Bool
unfolding ends_alnum text_length
is_framed head x most String.[] = false
is_framed head x most (String.◌∷◌ c String.[]) = head c
is_framed head x most (String.◌∷◌ c (String.◌∷◌ c' s)) =
    head c && ends_alnum x (String.◌∷◌ c' s) && leb (text_length s) most

unfoldable pub concat : String → String → String
concat a b = String.◌++◌ a b

-- The two parts around the last "-" of `text.rpartition("-")`.
unfoldable pub rpartition : String → Option (String × String)
rpartition String.[] = none
rpartition (String.◌∷◌ c s) = elim (rpartition s) [
  | some (a, b) ↦ some (String.◌∷◌ c a, b)
  | none ↦ if code c == b'-' then some ("", s) else none
]

-- What follows the prefix, if `text.startswith(prefix)`.
unfoldable pub strip_prefix : String → String → Option String
strip_prefix String.[] s = some s
strip_prefix (String.◌∷◌ c p) String.[] = none
strip_prefix (String.◌∷◌ c p) (String.◌∷◌ d s) =
    let rest = strip_prefix p s in if code c == code d then rest else none

-- `text.removeprefix(prefix)`
unfoldable pub remove_prefix : String → String → String
unfolding strip_prefix
remove_prefix p s = elim (strip_prefix p s) [ none ↦ s | some rest ↦ rest ]

-- `text in choices`
unfoldable pub is_one_of : String → List String → Bool
is_one_of s [] = false
is_one_of s (t ∷ ts) = str_eq s t || is_one_of s ts

digits_from : ℕ → String → Option ℕ
digits_from n String.[] = some n
digits_from n (String.◌∷◌ c s) =
    let rest = digits_from (n * 10 + (code c - b'0')) s in if is_digit c then rest else none

-- int(text) of ASCII decimal digits; none for any other text
unfoldable pub digits_value : String → Option ℕ
unfolding digits_from
digits_value String.[] = none
digits_value (String.◌∷◌ c s) = digits_from 0 (String.◌∷◌ c s)

digit : ℕ → String
digit n =
    if n == 0
    then "0"
    else if n == 1
    then "1"
    else if n == 2
    then "2"
    else if n == 3
    then "3"
    else if n == 4
    then "4"
    else if n == 5
    then "5"
    else if n == 6
    then "6"
    else if n == 7
    then "7"
    else if n == 8
    then "8"
    else "9"

decimal : ℕ → ℕ → String
unfolding digit concat
decimal zero n = digit (n % 10)
decimal (suc fuel) n =
    let rest = decimal fuel (n / 10) in if ltb n 10 then digit n else concat rest (digit (n % 10))

-- str(n); n has at most n + 1 digits
unfoldable pub str : ℕ → String
unfolding decimal
str n = decimal n n
