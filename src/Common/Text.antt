-- ===== src/Common/Text.antt =====
-- Go's standard `strings` functions that the library calls, over code points: `TrimSpace`, `ToLower`,
-- `Split` at one ASCII character, `Contains`, `ReplaceAll`; and `strconv.Atoi`.
-- A text is valid UTF-8 throughout.
pub mod Laws
pub mod Blank
use Prim.Native.Char.{Char, char, code}
use Prim.Native.Nat.{ℕ, zero, suc, ◌+◌, ◌-◌, ◌*◌, ◌/◌, ◌%◌}
use Prim.Native.String
use Prim.Native.String.{String, [], ◌∷◌, count}
use mathlib.Core.Bool.{Bool, true, false, ◌&&◌, ◌||◌}
use mathlib.Core.List.{List}
use mathlib.Core.List
use mathlib.Core.Option.{Option, none, some}
use routing_slip_pattern.Common.Int.{ℤ, pos, negsuc}
use routing_slip_pattern.Common.Tests.{leb, ◌==◌, if◌then◌else◌}

abbrev pub is_empty : String → Bool
is_empty [] = true
is_empty (c ∷ s) = false

-- `unicode.IsSpace`.
unfoldable pub is_space : ℕ → Bool
is_space c =
    (leb 9 c && leb c 13)
    || (c == 32 || c == 0x85 || c == 0xa0 || c == 0x1680)
    || ((leb 0x2000 c && leb c 0x200a) || c == 0x2028 || c == 0x2029 || c == 0x202f || c == 0x205f)
    || c == 0x3000

unfoldable pub trim_left : String → String
unfolding is_space
trim_left [] = []
trim_left (c ∷ s) = let rest = trim_left s in if is_space (code c) then rest else c ∷ s

unfoldable pub trim_right : String → String
unfolding is_space
trim_right [] = []
trim_right (c ∷ s) =
    let rest = trim_right s in if is_space (code c) && is_empty rest then [] else c ∷ rest

unfoldable pub trim_space : String → String
unfolding trim_left trim_right
trim_space s = trim_right (trim_left s)

-- The ASCII letters, one for each capital.
abbrev letters : String
letters = "abcdefghijklmnopqrstuvwxyz"

abbrev nth_char : String → ℕ → Char → Char
nth_char [] n d = d
nth_char (c ∷ s) zero d = c
nth_char (c ∷ s) (suc n) d = nth_char s n d

-- `unicode.ToLower`, where its result is ASCII; any other letter stays as it is, and no caller
-- tells it from its lower case, for each compares the result with ASCII constants alone.
unfoldable pub to_lower_char : Char → Char
to_lower_char c =
    if leb 65 (code c) && leb (code c) 90
    then nth_char letters (code c - 65) c
    else if code c == 0x130
    then "i"
    else if code c == 0x212a
    then "k"
    else c

unfoldable pub to_lower : String → String
unfolding to_lower_char
to_lower [] = []
to_lower (c ∷ s) = to_lower_char c ∷ to_lower s

abbrev pub push_head : Char → List String → List String
push_head c List.[] = List.◌∷◌ (c ∷ []) List.[]
push_head c (List.◌∷◌ p ps) = List.◌∷◌ (c ∷ p) ps

-- `strings.Split(s, sep)` for a separator of one character.
unfoldable pub split_on : ℕ → String → List String
split_on sep [] = List.◌∷◌ [] List.[]
split_on sep (c ∷ s) =
    let rest = split_on sep s in if code c == sep then List.◌∷◌ [] rest else push_head c rest

-- The two characters are one.
abbrev same_char : Char → Char → Bool
same_char c d = code c == code d

unfoldable pub has_prefix : String → String → Bool
has_prefix [] s = true
has_prefix (p ∷ ps) [] = false
has_prefix (p ∷ ps) (c ∷ s) = same_char p c && has_prefix ps s

-- `strings.Contains(s, part)`.
unfoldable pub contains : String → String → Bool
unfolding has_prefix
contains part [] = is_empty part
contains part (c ∷ s) = has_prefix part (c ∷ s) || contains part s

-- The scan of `ReplaceAll`: `skip` characters of an occurrence are still to be dropped.
replace_from : String → String → ℕ → String → String
unfolding has_prefix
replace_from old new skip [] = []
replace_from old new (suc skip) (c ∷ s) = replace_from old new skip s
replace_from old new zero (c ∷ s) =
    let hit = String.◌++◌ new (replace_from old new (count old - 1) s) in
    let miss = c ∷ replace_from old new zero s in if has_prefix old (c ∷ s) then hit else miss

-- `strings.ReplaceAll(s, old, new)` for a non-empty `old`.
unfoldable pub replace_all : String → String → String → String
unfolding replace_from
replace_all s old new = replace_from old new 0 s

-- The decimal digits of a text, most significant first; `none` at another character.
digits_from : ℕ → String → Option ℕ
digits_from n [] = some n
digits_from n (c ∷ s) =
    let rest = digits_from (n * 10 + (code c - 48)) s in
    if leb 48 (code c) && leb (code c) 57 then rest else none

abbrev nonempty_digits : String → Option ℕ
nonempty_digits [] = none
nonempty_digits (c ∷ s) = digits_from 0 (c ∷ s)

abbrev negated : ℕ → ℤ
negated zero = pos 0
negated (suc n) = negsuc n

abbrev positive_int : Option ℕ → Option ℤ
positive_int none = none
positive_int (some n) = if leb n 9223372036854775807 then some (pos n) else none

abbrev negative_int : Option ℕ → Option ℤ
negative_int none = none
negative_int (some n) = if leb n 9223372036854775808 then some (negated n) else none

-- `strconv.Atoi`, an error as `none`.
unfoldable pub atoi : String → Option ℤ
unfolding digits_from
atoi [] = none
atoi (c ∷ s) =
    if code c == b'+'
    then positive_int (nonempty_digits s)
    else if code c == b'-'
    then negative_int (nonempty_digits s)
    else positive_int (nonempty_digits (c ∷ s))

abbrev digit : ℕ → Char
digit n = nth_char "0123456789" n "0"

-- The digits of `n` in front of `acc`, with fuel above the number of digits.
decimal_from : ℕ → ℕ → String → String
decimal_from zero n acc = acc
decimal_from (suc fuel) n acc =
    let rest = decimal_from fuel (n / 10) (digit (n % 10) ∷ acc) in
    if leb n 9 then digit n ∷ acc else rest

-- `strconv.Itoa` of an index; `n + 1` rounds are enough.
unfoldable pub itoa : ℕ → String
unfolding decimal_from
itoa n = decimal_from (n + 1) n []
