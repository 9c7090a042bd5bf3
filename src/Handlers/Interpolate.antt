-- ===== src/Handlers/Interpolate.antt =====
-- `interpolate` of app/handlers/handlers.go: the tokens of a template, replaced by payload values.
pub mod Ends
use Prim.Native.Char.{Char, code}
use Prim.Native.String.{[], ◌∷◌, ◌++◌}
use routing_slip_pattern.Common.{
  ℕ, zero, suc, String, Bool, Option, none, some, ◌==◌, if◌then◌else◌,
}
use routing_slip_pattern.Value.{Value, Fields, null, get}

abbrev pub prepend : Char → Option (String × String) → Option (String × String)
prepend c none = none
prepend c (some (before, after)) = some (c ∷ before, after)

-- `strings.Index` of one ASCII character: the text before its first place and the text behind it.
unfoldable pub cut : ℕ → String → Option (String × String)
cut sep [] = none
cut sep (c ∷ s) = let rest = cut sep s in if code c == sep then some ([], s) else prepend c rest

abbrev or_null : Option Value → Value
or_null none = null
or_null (some v) = v

abbrev pub finds : Option (String × String) → Bool
finds none = Bool.false
finds (some p) = Bool.true

module _ (sprint : Value → String) (payload : Fields) where
  -- `fmt.Sprintf("%v", val)` of the value under a key; a missing key gives nil.
  unfoldable pub token_text : String → String
  unfolding get
  token_text key = sprint (or_null (get key payload))

  -- One token replaced; `none` where the loop ends: no "{", no "}", or a "}" that comes first.
  unfoldable pub replace_token : String → Option String
  unfolding cut token_text
  replace_token t = elim (cut b'{' t) [
    | none ↦ none
    | some (before, after) ↦ if finds (cut b'}' before) then none else elim (cut b'}' after) [
      | none ↦ none
      | some (key, rest) ↦ some (before ++ (token_text key ++ rest))
    ]
  ]

  -- The loop, on fuel.
  unfoldable pub interpolate : ℕ → String → Option String
  unfolding replace_token
  interpolate zero t = none
  interpolate (suc fuel) t = elim (replace_token t) [
    | none ↦ some t
    | some t' ↦ interpolate fuel t'
  ]
