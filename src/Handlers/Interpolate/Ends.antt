-- ===== src/Handlers/Interpolate/Ends.antt =====
-- When the loop of `interpolate` ends.
use Prim.Native.Char.{Char, code}
use Prim.Native.String.{[], ◌∷◌, ◌++◌}
use text.Mathlib.TextLemmas.{nil-append, cons-append}
use routing_slip_pattern.Common.{
  ℕ, zero, suc, ◌+◌, ◌<◌, String, Option, none, some, ◌≡◌, refl, subst, ◌==◌, if◌then◌else◌, arith,
  option_rule, if_rule,
}
use routing_slip_pattern.Value.{Value, Fields}
use routing_slip_pattern.Handlers.Interpolate.{
  cut, prepend, finds, token_text, replace_token, interpolate,
}

abbrev weight : ℕ → ℕ
weight n = if n == b'{' then 1 else 0

-- How many "{" a text has.
abbrev pub braces : String → ℕ
braces [] = 0
braces (c ∷ s) = weight (code c) + braces s

braces-append : (s t : String) → braces (s ++ t) ≡ braces s + braces t
braces-append [] t = rw nil-append (omega arith)
braces-append (c ∷ s) t = rw cons-append (omega (arith, braces-append s t))

-- A cut takes the separator away and nothing else.
Counts : ℕ → String → Option (String × String) → Type 0
Counts sep s none = Unit
Counts sep s (some (p, q)) = braces s ≡ braces p + (weight sep + braces q)

prepend-Counts :
    (sep : ℕ) (c : Char) (s : String) (o : Option (String × String))
    → Counts sep s o
    → Counts sep (c ∷ s) (prepend c o)
unfolding Counts
prepend-Counts sep c s none h = tt
prepend-Counts sep c s (some (p, q)) h = omega (arith, h)

cut-Counts : (sep : ℕ) (s : String) → Counts sep s (cut sep s)
unfolding cut Counts
cut-Counts sep [] = tt
cut-Counts sep (c ∷ s) =
    if_rule (Counts sep (c ∷ s)) (code c == sep) _ _ (λ e. ground (arith, e))
      (λ _. prepend-Counts sep c s (cut sep s) (cut-Counts sep s))

module _ (sprint : Value → String) (payload : Fields) where
  -- No value of the payload prints a "{", nor does a missing one.
  abbrev pub Plain : Type 0
  Plain = (key : String) → braces (token_text sprint payload key) ≡ 0

  abbrev Fewer : String → Option String → Type 0
  Fewer t none = Unit
  Fewer t (some t') = braces t' < braces t

  replace_token-Fewer : Plain → (t : String) → Fewer t (replace_token sprint payload t)
  unfolding replace_token Counts
  replace_token-Fewer plain t = outer (cut b'{' t) (cut-Counts b'{' t)
    where
      inner :
          (before after : String) (o : Option (String × String))
          → braces t ≡ braces before + (1 + braces after)
          → Counts b'}' after o
          → Fewer t (elim o [
            | none ↦ none
            | some (key, rest) ↦ some (before ++ (token_text sprint payload key ++ rest))
          ])
      inner before after none h k = tt
      inner before after (some (key, rest)) h k = omega (
        arith,
        h,
        k,
        plain key,
        braces-append before (token_text sprint payload key ++ rest),
        braces-append (token_text sprint payload key) rest,
      )

      outer :
          (o : Option (String × String))
          → Counts b'{' t o
          → Fewer t (elim o [
            | none ↦ none
            | some (before, after) ↦
                if finds (cut b'}' before) then none else elim (cut b'}' after) [
                  | none ↦ none
                  | some (key, rest) ↦ some (before ++ (token_text sprint payload key ++ rest))
                ]
          ])
      outer none h = tt
      outer (some (before, after)) h =
          if_rule (Fewer t) (finds (cut b'}' before)) _ _ (λ _. tt)
            (λ _. inner before after (cut b'}' after) h (cut-Counts b'}' after))

  -- Where no value of the payload prints a "{", the loop ends within one round more than the template
  -- has "{".
  pub interpolate_ends :
      (fuel : ℕ) (t : String)
      → Plain
      → braces t < fuel
      → (r : String) × (interpolate sprint payload fuel t ≡ some r)
  unfolding interpolate
  interpolate_ends zero t plain l = absurd (omega (arith, l))
  interpolate_ends (suc fuel) t plain l =
      option_rule (λ (o : Option String). (r : String) × (o ≡ some r))
        (replace_token sprint payload t) _ _ (λ _. (t, refl))
        (λ t' e.
          interpolate_ends fuel t' plain
            (omega (arith, l, subst (Fewer t) e (replace_token-Fewer plain t))))

-- Where the template is "{name}" and the payload's value under "name" prints as that same token, the
-- loop goes on for ever: under no fuel does it give a result.
pub interpolate_diverges :
    (sprint : Value → String) (payload : Fields) (fuel : ℕ)
    → token_text sprint payload "name" ≡ "{name}"
    → interpolate sprint payload fuel "{name}" ≡ none
unfolding interpolate replace_token cut
interpolate_diverges sprint payload zero own = refl
interpolate_diverges sprint payload (suc fuel) own =
    rw own (interpolate_diverges sprint payload fuel own)
