-- ===== src/Config/Environment/Laws.antt =====
-- What `expandEnvDefaults` of app/runtime_config.go makes of a text with an expression in it.
use Prim.Native.Char.{Char}
use Prim.Native.String.{◌++◌, [], ◌∷◌, count}
use text.Mathlib.TextLemmas.{nil-append, cons-append, length-nil, length-cons}
use routing_slip_pattern.Common.{ℕ, suc, ◌+◌, String, some, ◌≡◌, refl, ap, ◌∙◌, arith}
use routing_slip_pattern.Common.Text.Laws.{Without}
use routing_slip_pattern.Config.Defaults.{Environment}
use routing_slip_pattern.Config.Environment.{
  until_brace, expand_env_expression, expand_from, expand_env_defaults,
}

-- The expression ends at its brace.
until_brace-append :
    (expr rest : String)
    → Without b'}' expr
    → until_brace (expr ++ ("}" ∷ rest)) ≡ some (count expr, expr)
unfolding until_brace
until_brace-append [] rest h = rw (nil-append, until_brace) refl
until_brace-append (c ∷ expr) rest h =
    rw (cons-append, until_brace) (rw (h.0, until_brace-append expr rest h.1) (rw length-cons refl))

module _ (getenv : Environment) where
  -- What is passed over is gone.
  expand_from-skip :
      (s rest : String) (d : Char)
      → expand_from getenv (suc (count s)) (s ++ (d ∷ rest)) ≡ expand_from getenv 0 rest
  unfolding expand_from
  expand_from-skip [] rest d = rw (nil-append, length-nil) refl
  expand_from-skip (c ∷ s) rest d = rw (cons-append, length-cons) (expand_from-skip s rest d)

  expand_from-plain :
      (s rest : String)
      → Without b'$' s
      → expand_from getenv 0 (s ++ rest) ≡ s ++ expand_from getenv 0 rest
  unfolding expand_from
  expand_from-plain [] rest h = rw (nil-append rest, nil-append (expand_from getenv 0 rest)) refl
  expand_from-plain (c ∷ s) rest h =
      rw (cons-append c s rest, cons-append c s (expand_from getenv 0 rest))
        (rw h.0 (ap (λ r. c ∷ r) (expand_from-plain s rest h.1)))

  two_more :
      (n : ℕ) (s : String) → expand_from getenv (n + 2) s ≡ expand_from getenv (suc (suc n)) s
  two_more n s = ap (λ (k : ℕ). expand_from getenv k s) (omega arith)

  expand_from-expression :
      (expr rest : String)
      → Without b'}' expr
      → expand_from getenv 0 ("$" ∷ ("{" ∷ (expr ++ ("}" ∷ rest))))
        ≡ expand_env_expression getenv expr ++ expand_from getenv 0 rest
  unfolding expand_from
  expand_from-expression expr rest h = rw (until_brace-append expr rest h) (
      ap (λ (r : String). expand_env_expression getenv expr ++ r)
        (two_more (count expr) ("{" ∷ (expr ++ ("}" ∷ rest))) ∙ expand_from-skip expr rest "}"))

-- In a text, "${...}" with no "}" inside and no "$" before it becomes the value of its expression,
-- what stands before it stays, and the expansion goes on behind it: a value that is put in is not
-- expanded again.
pub expand_env_defaults-append :
    (getenv : Environment) (before expr rest : String)
    → Without b'$' before
    → Without b'}' expr
    → expand_env_defaults getenv (before ++ ("$" ∷ ("{" ∷ (expr ++ ("}" ∷ rest)))))
      ≡ before ++ (expand_env_expression getenv expr ++ expand_env_defaults getenv rest)
unfolding expand_env_defaults
expand_env_defaults-append getenv before expr rest plain closed =
    expand_from-plain getenv before _ plain
    ∙ ap (λ (r : String). before ++ r) (expand_from-expression getenv expr rest closed)
