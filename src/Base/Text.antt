-- ===== src/Base/Text.antt =====
-- Go's `strings` functions on texts whose letters are ASCII.
use Prim.Native.Char.{Char, code}
use Prim.Native.Nat.{ℕ, zero, suc, ◌-◌, ◌/◌, ◌%◌}
use Prim.Native.String.{String, char_at}
use Prim.Native.String
use mathlib.Core.Bool.{Bool, true, false, ◌&&◌, ◌||◌}
use mathlib.Core.Path.{◌≡◌, refl}
use text.Mathlib.Text.{◌==◌ as str_eq}
use myagent_bot.Base.Tests.{ltb, leb, ◌==◌, if◌then◌else◌}

-- `unicode.IsSpace`
unfoldable pub is_space : Char → Bool
is_space c =
    (leb 9 (code c) && leb (code c) 13)
    || (code c == 32)
    || (code c == 0x85)
    || (code c == 0xa0)
    || (code c == 0x1680)
    || (leb 0x2000 (code c) && leb (code c) 0x200a)
    || (code c == 0x2028)
    || (code c == 0x2029)
    || (code c == 0x202f)
    || (code c == 0x205f)
    || (code c == 0x3000)

unfoldable pub trim_left : String → String
unfolding is_space
trim_left String.[] = String.[]
trim_left (String.◌∷◌ c s) = let rest = trim_left s in if is_space c then rest else String.◌∷◌ c s

unfoldable pub trim_right : String → String
unfolding is_space
trim_right String.[] = String.[]
trim_right (String.◌∷◌ c s) =
    let rest = trim_right s in if is_space c && str_eq rest "" then String.[] else String.◌∷◌ c rest

-- `strings.TrimSpace`
unfoldable pub trim_space : String → String
unfolding trim_left trim_right
trim_space s = trim_right (trim_left s)

-- The character at a position, or `d` past the end.
unfoldable pub char_or : Char → String → ℕ → Char
char_or d String.[] n = d
char_or d (String.◌∷◌ c s) zero = c
char_or d (String.◌∷◌ c s) (suc n) = char_or d s n

-- `unicode.ToLower` of a letter of ASCII
unfoldable pub lower_char : Char → Char
unfolding char_or
lower_char c =
    if leb b'A' (code c) && leb (code c) b'Z'
    then char_or c "abcdefghijklmnopqrstuvwxyz" (code c - b'A')
    else c

-- `strings.ToLower`
unfoldable pub to_lower : String → String
unfolding lower_char
to_lower String.[] = String.[]
to_lower (String.◌∷◌ c s) = String.◌∷◌ (lower_char c) (to_lower s)

-- texts one after the other, as `+` and `%s` put them
infixr 64 ◌+++◌
unfoldable pub ◌+++◌ : String → String → String
String.[] +++ t = t
(String.◌∷◌ c s) +++ t = String.◌∷◌ c (s +++ t)

-- the text has no character that fails the test
unfoldable pub all_chars : (Char → Bool) → String → Bool
all_chars p String.[] = true
all_chars p (String.◌∷◌ c s) = p c && all_chars p s

-- the number of characters
unfoldable pub count : String → ℕ
count String.[] = 0
count (String.◌∷◌ c s) = suc (count s)

-- `strings.EqualFold`
unfoldable pub equal_fold : String → String → Bool
unfolding to_lower
equal_fold a b = str_eq (to_lower a) (to_lower b)

-- `strings.HasPrefix`
unfoldable pub has_prefix : String → String → Bool
has_prefix s String.[] = true
has_prefix String.[] (String.◌∷◌ d t) = false
has_prefix (String.◌∷◌ c s) (String.◌∷◌ d t) = code c == code d && has_prefix s t

-- `strings.TrimPrefix`
unfoldable pub trim_prefix : String → String → String
trim_prefix s String.[] = s
trim_prefix String.[] (String.◌∷◌ d t) = String.[]
trim_prefix (String.◌∷◌ c s) (String.◌∷◌ d t) =
    let rest = trim_prefix s t in
    if has_prefix (String.◌∷◌ c s) (String.◌∷◌ d t) then rest else String.◌∷◌ c s

-- `strings.HasSuffix`
unfoldable pub has_suffix : String → String → Bool
has_suffix String.[] t = str_eq t ""
has_suffix (String.◌∷◌ c s) t = str_eq (String.◌∷◌ c s) t || has_suffix s t

-- `strings.TrimSuffix`
unfoldable pub trim_suffix : String → String → String
trim_suffix String.[] t = String.[]
trim_suffix (String.◌∷◌ c s) t =
    let rest = trim_suffix s t in if str_eq (String.◌∷◌ c s) t then String.[] else String.◌∷◌ c rest

-- A number in decimal, of at most as many digits as there is fuel; an int64 has 19 at most.
unfoldable pub decimal_fuel : ℕ → ℕ → String
decimal_fuel zero n = ""
decimal_fuel (suc f) n =
    let front = decimal_fuel f (n / 10) in
    let digit = String.◌∷◌ (char_at "0123456789" (n % 10)) "" in
    if ltb n 10 then digit else String.◌++◌ front digit

-- `%d` of a number that is not negative
unfoldable pub decimal : ℕ → String
unfolding decimal_fuel
decimal = decimal_fuel 20

trim_test : trim_space "\t Paid  " ≡ "Paid"
unfolding trim_space
trim_test = refl

lower_test : to_lower "System:Job" ≡ "system:job"
unfolding to_lower
lower_test = refl

prefix_test : has_prefix "system:job" "system:" ≡ true
unfolding has_prefix
prefix_test = refl

decimal_test : decimal 1700000000123456789 ≡ "1700000000123456789"
unfolding decimal
decimal_test = refl
