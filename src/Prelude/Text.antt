-- ===== src/Prelude/Text.antt =====
-- What the program uses of Go's `strings` package, over native strings.
use Prim.Native.Nat.{ℕ, zero, suc, ◌/◌, ◌%◌}
use Prim.Native.Char.{Char, code}
use Prim.Native.String.{String, char_at}
use mathlib.Core.Bool.{Bool, true, false, ◌||◌, ◌&&◌}
use mathlib.Core.List.{List, [], ◌∷◌}
use text.Mathlib.Text.{◌==◌ as str_eq}
use senechal_gw.Prelude.Tests.{leb, ltb, ◌==◌, if◌then◌else◌}

abbrev pub is_empty : String → Bool
is_empty String.[] = true
is_empty (String.◌∷◌ c s) = false

-- unicode.IsSpace
unfoldable pub is_space : ℕ → Bool
is_space c =
    (leb 9 c && leb c 13)
    || c == 32
    || c == 0x85
    || c == 0xA0
    || c == 0x1680
    || (leb 0x2000 c && leb c 0x200a)
    || c == 0x2028
    || c == 0x2029
    || c == 0x202f
    || c == 0x205f
    || c == 0x3000

unfoldable pub trim_left : String → String
trim_left String.[] = String.[]
trim_left (String.◌∷◌ c s) =
    let rest = trim_left s in if is_space (code c) then rest else String.◌∷◌ c s

unfoldable pub trim_right : String → String
trim_right String.[] = String.[]
trim_right (String.◌∷◌ c s) =
    let rest = trim_right s in
    if is_empty rest && is_space (code c) then String.[] else String.◌∷◌ c rest

-- strings.TrimSpace
unfoldable pub trim_space : String → String
unfolding is_space trim_left trim_right
trim_space s = trim_right (trim_left s)

-- A character in front of the first word.
unfoldable pub extend : Char → List String → List String
extend c [] = (String.◌∷◌ c String.[]) ∷ []
extend c (w ∷ ws) = (String.◌∷◌ c w) ∷ ws

-- strings.Split by a single character: never the empty list.
unfoldable pub split : ℕ → String → List String
unfolding extend
split sep String.[] = String.[] ∷ []
split sep (String.◌∷◌ c s) =
    let rest = split sep s in if code c == sep then String.[] ∷ rest else extend c rest

-- s + t
unfoldable pub str_append : String → String → String
str_append String.[] t = t
str_append (String.◌∷◌ c s) t = String.◌∷◌ c (str_append s t)

-- The decimal digits of a number in front of a text; a number has no more digits than itself.
unfoldable pub decimal_onto : ℕ → ℕ → String → String
decimal_onto zero n s = s
decimal_onto (suc fuel) n s =
    let rest = decimal_onto fuel (n / 10) (String.◌∷◌ (char_at "0123456789" (n % 10)) s) in
    if ltb n 10 then String.◌∷◌ (char_at "0123456789" n) s else rest

-- fmt.Sprintf("%d", n)
unfoldable pub decimal : ℕ → String
unfolding decimal_onto
decimal n = decimal_onto (suc n) n String.[]

-- strings.HasPrefix s p
unfoldable pub has_prefix : String → String → Bool
has_prefix s String.[] = true
has_prefix String.[] (String.◌∷◌ d p) = false
has_prefix (String.◌∷◌ c s) (String.◌∷◌ d p) = let rest = has_prefix s p in code c == code d && rest

-- strings.Contains s p
unfoldable pub contains : String → String → Bool
unfolding has_prefix
contains String.[] p = is_empty p
contains (String.◌∷◌ c s) p = has_prefix (String.◌∷◌ c s) p || contains s p

-- strings.HasSuffix s p
unfoldable pub has_suffix : String → String → Bool
has_suffix String.[] p = is_empty p
has_suffix (String.◌∷◌ c s) p = str_eq (String.◌∷◌ c s) p || has_suffix s p

-- strings.TrimPrefix s p
unfoldable pub trim_prefix : String → String → String
trim_prefix s String.[] = s
trim_prefix String.[] (String.◌∷◌ d p) = String.[]
trim_prefix (String.◌∷◌ c s) (String.◌∷◌ d p) = trim_prefix s p
