-- ===== src/Common/Text/Laws.antt =====
-- Laws of the text functions.
use Prim.Native.Char.{Char, code}
use Prim.Native.String.{String, [], ◌∷◌, ◌++◌}
use Prim.Native.Nat.{ℕ}
use mathlib.Core.Path.{◌≡◌, refl, ap, ◌∙◌}
use mathlib.Core.Bool.{true, false}
use mathlib.Core.List
use text.Mathlib.TextLemmas.{nil-append, cons-append}
use routing_slip_pattern.Common.Tests.{◌==◌}
use routing_slip_pattern.Common.Text.{
  is_space, trim_left, trim_right, trim_space, split_on, push_head,
}

-- No white space in the text.
abbrev pub NoSpace : String → Type 0
NoSpace [] = Unit
NoSpace (c ∷ s) = (is_space (code c) ≡ false) × NoSpace s

-- The separator does not occur in the text.
abbrev pub Without : ℕ → String → Type 0
Without sep [] = Unit
Without sep (c ∷ s) = ((code c == sep) ≡ false) × Without sep s

pub NoSpace-append : (s t : String) → NoSpace s → NoSpace t → NoSpace (s ++ t)
NoSpace-append [] t h k = rw nil-append k
NoSpace-append (c ∷ s) t h k = rw cons-append (h.0, NoSpace-append s t h.1 k)

trim_right-NoSpace : (s : String) → NoSpace s → trim_right s ≡ s
unfolding trim_right
trim_right-NoSpace [] h = refl
trim_right-NoSpace (c ∷ s) h = rw (h.0) (ap (λ r. c ∷ r) (trim_right-NoSpace s h.1))

trim_left-NoSpace : (s : String) → NoSpace s → trim_left s ≡ s
unfolding trim_left
trim_left-NoSpace [] h = refl
trim_left-NoSpace (c ∷ s) h = rw (h.0) refl

-- Without white space there is nothing to trim.
pub trim_space-NoSpace : (s : String) → NoSpace s → trim_space s ≡ s
unfolding trim_space
trim_space-NoSpace s h = ap trim_right (trim_left-NoSpace s h) ∙ trim_right-NoSpace s h

-- The text up to the first separator is the first part.
pub split_on-append :
    (sep : ℕ) (s : String) (d : Char) (t : String)
    → Without sep s
    → (code d == sep) ≡ true
    → split_on sep (s ++ (d ∷ t)) ≡ List.◌∷◌ s (split_on sep t)
unfolding split_on
split_on-append sep [] d t h e = rw (nil-append, split_on) (rw e refl)
split_on-append sep (c ∷ s) d t h e =
    rw (cons-append, split_on) (rw h.0 (ap (push_head c) (split_on-append sep s d t h.1 e)))

-- With no separator there is one part.
pub split_on-Without : (sep : ℕ) (s : String) → Without sep s → split_on sep s ≡ List.◌∷◌ s List.[]
unfolding split_on
split_on-Without sep [] h = refl
split_on-Without sep (c ∷ s) h = rw h.0 (ap (push_head c) (split_on-Without sep s h.1))
