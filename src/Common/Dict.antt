-- ===== src/Common/Dict.antt =====
-- A Go map with text keys, as an association list: `insert` replaces, `lookup` finds the first.
use Prim.Native.String.{String}
use mathlib.Core.Path.{◌≡◌}
use mathlib.Core.Option.{Option, none, some}
use mathlib.Core.List.{List, [], ◌∷◌}
use native.Mathlib.Omega.{arith}
use text.Mathlib.Text.{◌==◌}
use text.Mathlib.TextEquality.{eq_iff}
use routing_slip_pattern.Common.Tests.{if◌then◌else◌}

abbrev pub Dict {ℓ} : Type ℓ → Type ℓ
Dict V = List (String × V)

module _ {ℓ} {V : Type ℓ} where
  unfoldable pub lookup : String → Dict V → Option V
  lookup key [] = none
  lookup key ((name, value) ∷ rest) = if key == name then some value else lookup key rest

  unfoldable pub insert : String → V → Dict V → Dict V
  insert key value [] = (key, value) ∷ []
  insert key value ((name, old) ∷ rest) =
      if key == name then (name, value) ∷ rest else (name, old) ∷ insert key value rest

  unfoldable pub delete : String → Dict V → Dict V
  delete key [] = []
  delete key ((name, old) ∷ rest) =
      if key == name then delete key rest else (name, old) ∷ delete key rest

  pub lookup-insert :
      (key sought : String) (value : V) (entries : Dict V)
      → lookup sought (insert key value entries)
        ≡ (if key == sought then some value else lookup sought entries)
  unfolding lookup insert
  lookup-insert key sought value [] = ground (arith, eq_iff key sought, eq_iff sought key)
  lookup-insert key sought value ((name, old) ∷ rest) = ground (
    arith,
    lookup-insert key sought value rest,
    eq_iff key sought,
    eq_iff key name,
    eq_iff sought name,
  )

  pub lookup-delete :
      (key sought : String) (entries : Dict V)
      → lookup sought (delete key entries) ≡ (if key == sought then none else lookup sought entries)
  unfolding lookup delete
  lookup-delete key sought [] = ground arith
  lookup-delete key sought ((name, old) ∷ rest) =
      ground (
        arith,
        lookup-delete key sought rest,
        eq_iff key sought,
        eq_iff key name,
        eq_iff sought name,
      )
