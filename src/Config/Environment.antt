-- ===== src/Config/Environment.antt =====
-- The environment's variables in the files of app/runtime_config.go: `expandEnvDefaults`,
-- `expandEnvExpression`, `ApplyIntegrationEnv` with `setEnvIfEmpty` and `setEnvBoolIfEmpty`. The
-- environment is a function, which `os.Setenv` changes at one key.
pub mod Laws
use Prim.Native.Char.{Char, code}
use Prim.Native.String.{◌++◌, [], ◌∷◌}
use routing_slip_pattern.Common.{
  ℕ, zero, suc, ◌+◌, String, Bool, true, false, ◌&&◌, Option, none, some, ◌==◌, str_eq,
  if◌then◌else◌,
}
use routing_slip_pattern.Common.Text.{trim_space, is_empty, has_prefix}
use routing_slip_pattern.Config.{AppConfig}
use routing_slip_pattern.Config.Defaults.{Environment}

-- The text before and behind the first ":-", if there is one.
abbrev pub cut_here : Char → Option (String × String) → Option (String × String)
cut_here c none = none
cut_here c (some (name, fallback)) = some (c ∷ name, fallback)

abbrev pub after_two : String → String
after_two (c ∷ d ∷ s) = s
after_two s = []

unfoldable pub cut_default : String → Option (String × String)
unfolding has_prefix
cut_default [] = none
cut_default (c ∷ s) =
    let rest = cut_default s in
    if has_prefix ":-" (c ∷ s) then some ([], after_two (c ∷ s)) else cut_here c rest

-- `strings.IndexByte(s, '}')` and the text before it.
unfoldable pub until_brace : String → Option (ℕ × String)
until_brace [] = none
until_brace (c ∷ s) =
    let rest : Option (ℕ × String) = elim (until_brace s) [
      | none ↦ none
      | some (n, t) ↦ some (suc n, c ∷ t)
    ] in
    if code c == b'}' then some (0, []) else rest

-- The expression behind "${", if its brace is closed.
abbrev pub opened : String → Option (ℕ × String)
unfolding until_brace
opened [] = none
opened (c ∷ s) = let found = until_brace s in if code c == b'{' then found else none

module _ (getenv : Environment) where
  unfoldable pub expand_env_expression : String → String
  unfolding cut_default trim_space
  expand_env_expression key = elim (cut_default key) [
    | none ↦ getenv key
    | some (name, fallback) ↦
        if is_empty (trim_space (getenv name)) then fallback else trim_space (getenv name)
  ]

  -- The scan; `skip` characters of an expression are still to be passed over.
  unfoldable pub expand_from : ℕ → String → String
  unfolding opened expand_env_expression
  expand_from skip [] = []
  expand_from (suc skip) (c ∷ s) = expand_from skip s
  expand_from zero (c ∷ s) =
      let kept = c ∷ expand_from zero s in
      let expanded : Option String = elim (opened s) [
        | none ↦ none
        | some (end_at, expr) ↦ some (expand_env_expression expr ++ expand_from (end_at + 2) s)
      ] in
      if code c == b'$' then (elim expanded [ none ↦ kept | some t ↦ t ]) else kept

  unfoldable pub expand_env_defaults : String → String
  unfolding expand_from
  expand_env_defaults input = expand_from 0 input

  abbrev pub with_env : String → String → Environment
  with_env key value k = if str_eq key k then value else getenv k

  unfoldable pub set_env_if_empty : (key value : String) → Environment
  unfolding trim_space
  set_env_if_empty key value =
      if is_empty (trim_space value)
      then getenv
      else if is_empty (trim_space (getenv key))
      then with_env key (trim_space value)
      else getenv

  unfoldable pub set_env_bool_if_empty : String → Bool → Environment
  unfolding trim_space
  set_env_bool_if_empty key value =
      if is_empty (trim_space (getenv key))
      then with_env key (if value then "true" else "false")
      else getenv

-- `ApplyIntegrationEnv`.
unfoldable pub apply_integration_env : AppConfig → Environment → Environment
unfolding set_env_if_empty set_env_bool_if_empty
apply_integration_env cfg getenv =
    let with_graphql =
      set_env_if_empty getenv "GRAPHQL_ENDPOINT" cfg.integrations.graphql_endpoint in
    let with_url =
      set_env_if_empty with_graphql "EXTERNAL_API_URL" cfg.integrations.external_api_url in
    let with_serial =
      set_env_if_empty with_url "EXTERNAL_API_SERIAL" cfg.integrations.external_api_serial in
    elim cfg.features.tracing_enabled [
      | none ↦ with_serial
      | some b ↦ set_env_bool_if_empty with_serial "ROUTING_SLIP_TRACING_ENABLED" b
    ]
