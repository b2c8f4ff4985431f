-- ===== src/Common/Texts.antt =====
-- JavaScript's reading of texts: truthiness, and `trim() === ""`.
use Prim.Native.Nat.{ℕ, ◌+◌, ◌*◌, ◌-◌}
use mathlib.Core.List.{List, [], ◌∷◌}
use Prim.Native.Char.{code}
use Prim.Native.String.{String}
use mathlib.Core.Bool.{Bool, true, false, not, ◌&&◌, ◌||◌}
use mathlib.Core.Option.{Option, none, some}
use mathlib.Core.Path.{◌≡◌}
use mathlib.Core.Logic.{◌≢◌}
use native.Mathlib.Omega.{arith}
use text.Mathlib.TextEquality.{eq_iff}
use text.Mathlib.Text.{◌==◌ as str_eq}
use docker_zerotier_planet.Common.Tests.{◌==◌, leb, ltb, if◌then◌else◌}

-- The code points that `trim` removes: white space and line terminators of ECMAScript.
abbrev pub is_space : ℕ → Bool
is_space c =
    (leb 9 c && leb c 13)
    || c == 32
    || c == 0xa0
    || c == 0x1680
    || (leb 0x2000 c && leb c 0x200a)
    || c == 0x2028
    || c == 0x2029
    || c == 0x202f
    || c == 0x205f
    || c == 0x3000
    || c == 0xfeff

-- `s.trim() === ""`.
unfoldable pub is_blank : String → Bool
is_blank String.[] = true
is_blank (String.◌∷◌ c s) = is_space (code c) && is_blank s

-- A text that may be missing is truthy if it is present and not empty.
abbrev pub truthy : Option String → Bool
truthy none = false
truthy (some s) = not (str_eq s "")

-- `s?.trim()` is truthy.
abbrev pub has_text : Option String → Bool
has_text none = false
has_text (some s) = not (is_blank s)

-- The code points of a text.
abbrev pub codes : String → List ℕ
codes String.[] = []
codes (String.◌∷◌ c s) = code c ∷ codes s

-- `s.length`, in UTF-16 units.
abbrev pub utf16_length : List ℕ → ℕ
utf16_length [] = 0
utf16_length (c ∷ cs) = (if ltb c 0x10000 then 1 else 2) + utf16_length cs

abbrev pub is_digit : ℕ → Bool
is_digit c = leb b'0' c && leb c b'9'

-- The digits at the front, read in base ten onto what was read before.
unfoldable pub leading_digits : ℕ → List ℕ → ℕ
leading_digits n [] = n
leading_digits n (c ∷ cs) =
    let rest = leading_digits (n * 10 + (c - b'0')) cs in if is_digit c then rest else n

abbrev pub starts_with_digit : List ℕ → Bool
starts_with_digit [] = false
starts_with_digit (c ∷ cs) = is_digit c

-- `parseInt(s, 10)`. A negative number, and zero with a sign, are `minus`.
pub data Parsed : Type 0 where
  nan : Parsed
  plus minus : ℕ → Parsed

unfoldable pub parse_digits : (ℕ → Parsed) → List ℕ → Parsed
unfolding leading_digits
parse_digits sign cs = if starts_with_digit cs then sign (leading_digits 0 cs) else nan

unfoldable pub parse_int : List ℕ → Parsed
unfolding parse_digits
parse_int [] = nan
parse_int (c ∷ cs) =
    let rest = parse_int cs in
    if is_space c
    then rest
    else if c == b'-'
    then parse_digits minus cs
    else if c == b'+'
    then parse_digits plus cs
    else parse_digits plus (c ∷ cs)

-- A digit in base sixteen; 16 is none.
abbrev hex_digit : ℕ → ℕ
hex_digit c =
    if is_digit c
    then c - b'0'
    else if leb b'a' c && leb c b'f'
    then (c - b'a') + 10
    else if leb b'A' c && leb c b'F'
    then (c - b'A') + 10
    else 16

unfoldable pub leading_hex : ℕ → List ℕ → ℕ
leading_hex n [] = n
leading_hex n (c ∷ cs) =
    let rest = leading_hex (n * 16 + hex_digit c) cs in if ltb (hex_digit c) 16 then rest else n

unfoldable pub parse_hex : (ℕ → Parsed) → List ℕ → Parsed
unfolding leading_hex
parse_hex sign [] = nan
parse_hex sign (c ∷ cs) = if ltb (hex_digit c) 16 then sign (leading_hex 0 (c ∷ cs)) else nan

-- Digits after `0x` are in base sixteen, others in base ten.
unfoldable pub parse_any_digits : (ℕ → Parsed) → List ℕ → Parsed
unfolding parse_digits parse_hex
parse_any_digits sign (a ∷ x ∷ cs) =
    if a == b'0' && (x == b'x' || x == b'X')
    then parse_hex sign cs
    else parse_digits sign (a ∷ x ∷ cs)
parse_any_digits sign cs = parse_digits sign cs

-- `parseInt(s)`, without a radix.
unfoldable pub parse_any_int : List ℕ → Parsed
unfolding parse_any_digits
parse_any_int [] = nan
parse_any_int (c ∷ cs) =
    let rest = parse_any_int cs in
    if is_space c
    then rest
    else if c == b'-'
    then parse_any_digits minus cs
    else if c == b'+'
    then parse_any_digits plus cs
    else parse_any_digits plus (c ∷ cs)

-- Texts that the test tells apart are not equal.
pub apart : (a b : String) → str_eq a b ≡ false → a ≢ b
apart a b h e = ground (arith, eq_iff a b)

trim_left : String → String
trim_left String.[] = String.[]
trim_left (String.◌∷◌ c s) =
    let rest = trim_left s in if is_space (code c) then rest else String.◌∷◌ c s

trim_right : String → String
unfolding is_blank
trim_right String.[] = String.[]
trim_right (String.◌∷◌ c s) =
    let rest = trim_right s in
    if is_space (code c) && is_blank s then String.[] else String.◌∷◌ c rest

-- `s.trim()` on a text.
unfoldable pub trim_text : String → String
unfolding trim_left trim_right
trim_text s = trim_right (trim_left s)
