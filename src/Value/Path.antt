-- ===== src/Value/Path.antt =====
-- Reading a nested value by a dotted path: the loop of `GetPath` of app/slip/slip.go.
use routing_slip_pattern.Common.{String, List, [], ◌∷◌, Option, none, some, get_elem?}
use routing_slip_pattern.Common.Int.{ℤ, pos, negsuc}
use routing_slip_pattern.Common.Text.{split_on, atoi, is_empty}
use routing_slip_pattern.Value.{Value, list, object, items, get, Fields}
use mathlib.Core.Bool.{cond}

-- `values[index]` behind the test of the range; a failed `Atoi` is no index.
abbrev at_index : List Value → Option ℤ → Option Value
at_index vs none = none
at_index vs (some (pos i)) = get_elem? vs i
at_index vs (some (negsuc n)) = none

-- One round of the loop: what `part` selects in the current value.
unfoldable pub child : Value → String → Option Value
unfolding atoi get
child (object m) part = get part m
child (list vs) part = at_index (items vs) (atoi part)
child _ part = none

infixl 5 ◌>>=◌
abbrev pub ◌>>=◌ : Option Value → (Value → Option Value) → Option Value
none >>= k = none
some a >>= k = k a

unfoldable pub walk : Value → List String → Option Value
unfolding child
walk current [] = some current
walk current (part ∷ parts) = child current part >>= λ next. walk next parts

-- `GetPath` of a payload.
unfoldable pub get_path : Fields → String → Option Value
unfolding walk split_on
get_path payload path = cond (is_empty path) none (walk (object payload) (split_on b'.' path))
