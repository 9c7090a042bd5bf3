-- ===== src/Common/Text/Blank.antt =====
-- When trimming a text leaves nothing.
use Prim.Native.Char.{Char, code}
use Prim.Native.String.{String, [], ◌∷◌}
use mathlib.Core.Path.{◌≡◌, refl, ◌∙◌, ap, sym}
use mathlib.Core.Bool.{Bool, true, false, ◌||◌, ◌&&◌, not}
use native.Mathlib.Omega.{arith}
use routing_slip_pattern.Common.Tests.{if◌then◌else◌}
use routing_slip_pattern.Common.Text.{is_empty, is_space, trim_left, trim_right, trim_space}

-- Some character is no space.
has_plain : String → Bool
has_plain [] = false
has_plain (c ∷ s) = not (is_space (code c)) || has_plain s

has_plain-trim_left : (s : String) → has_plain (trim_left s) ≡ has_plain s
unfolding has_plain trim_left
has_plain-trim_left [] = refl
has_plain-trim_left (c ∷ s) = ground (arith, has_plain-trim_left s)

empty_step :
    (c : Char) (rest : String) (space plain : Bool)
    → is_empty rest ≡ not plain
    → is_empty (if space && is_empty rest then [] else c ∷ rest) ≡ not (not space || plain)
empty_step c rest false plain e = refl
empty_step c rest true false e = rw e refl
empty_step c rest true true e = rw e refl

is_empty-trim_right : (s : String) → is_empty (trim_right s) ≡ not (has_plain s)
unfolding has_plain trim_right
is_empty-trim_right [] = refl
is_empty-trim_right (c ∷ s) =
    empty_step c (trim_right s) (is_space (code c)) (has_plain s) (is_empty-trim_right s)

plain_step :
    (c : Char) (rest : String) (space plain : Bool)
    → is_space (code c) ≡ space
    → is_empty rest ≡ not plain
    → has_plain rest ≡ plain
    → has_plain (if space && is_empty rest then [] else c ∷ rest) ≡ (not space || plain)
unfolding has_plain
plain_step c rest false plain at e same = rw at refl
plain_step c rest true false at e same = rw e refl
plain_step c rest true true at e same = rw e (rw (at, same) refl)

has_plain-trim_right : (s : String) → has_plain (trim_right s) ≡ has_plain s
unfolding has_plain trim_right
has_plain-trim_right [] = refl
has_plain-trim_right (c ∷ s) =
    plain_step c (trim_right s) (is_space (code c)) (has_plain s) refl (is_empty-trim_right s)
      (has_plain-trim_right s)

-- Trimming once more makes nothing empty.
pub is_empty-trim_space_twice :
    (s : String) → is_empty (trim_space (trim_space s)) ≡ is_empty (trim_space s)
unfolding trim_space
is_empty-trim_space_twice s =
    is_empty-trim_right (trim_left (trim_space s))
    ∙ ap not (has_plain-trim_left (trim_space s) ∙ has_plain-trim_right (trim_left s))
    ∙ sym (is_empty-trim_right (trim_left s))

-- A text that is more than space is not empty.
pub is_empty_plain : (s : String) → is_empty (trim_space s) ≡ false → is_empty s ≡ false
unfolding trim_space
is_empty_plain [] e = e
is_empty_plain (c ∷ s) e = refl
