-- ===== src/Config/Defaults/Fills.antt =====
-- The single steps of `applyConfigDefaults` of app/runtime_config.go: a text, a choice, a number, a switch
-- and the brokers are filled in or stay.
use routing_slip_pattern.Common.{
  String, Bool, true, List, [], ◌∷◌, Option, none, some, ◌≡◌, refl, arith, ◌∙◌, if_rule, All,
}
use routing_slip_pattern.Common.Int.{ℤ, is_positive}
use routing_slip_pattern.Common.Text.{trim_space, is_empty, split_on, contains}
use routing_slip_pattern.Common.Text.Blank.{is_empty-trim_space_twice}
use routing_slip_pattern.Config.Workflow.{or_default}
use routing_slip_pattern.Config.Defaults.{
  or_text, or_number, lowered, broker_defaults, given_parts, split_csv,
}
use routing_slip_pattern.Config.Defaults.Filled.{
  Given, NonEmpty, Positive, Filled, Lowered, Counted, Decided, BrokersFilled,
}

pub or_default-Filled :
    (value default_value : String)
    → Given default_value
    → Filled value (or_default value default_value)
or_default-Filled value default_value h =
    if_rule (Filled value) (is_empty (trim_space value)) default_value value
      (λ blank. (h, λ g. absurd (ground (arith, blank, g)))) (λ e. (e, λ _. refl))

pub or_text-Lowered :
    (value default_value : String)
    → NonEmpty default_value
    → Lowered value (or_text (lowered value) default_value)
or_text-Lowered value default_value h =
    if_rule (Lowered value) (is_empty (lowered value)) default_value (lowered value)
      (λ blank. (h, λ g. absurd (ground (arith, blank, g)))) (λ e. (e, λ _. refl))

pub or_text-NonEmpty :
    (value default_value : String) → NonEmpty default_value → NonEmpty (or_text value default_value)
or_text-NonEmpty value default_value h =
    if_rule NonEmpty (is_empty value) default_value value (λ _. h) (λ e. e)

pub or_number-Counted :
    (value default_value : ℤ)
    → Positive default_value
    → Counted value (or_number value default_value)
or_number-Counted value default_value h =
    if_rule (Counted value) (is_positive value) value default_value (λ e. (e, λ _. refl))
      (λ e. (h, λ g. absurd (ground (arith, e, g))))

pub decided : (o : Option Bool) → Decided o (elim o [ none ↦ some true | some c ↦ some c ])
decided none = ((true, refl), λ b e. absurd (ground (arith, e)))
decided (some c) = ((c, refl), λ b e. e)

given_parts-All : (parts : List String) → All Given (given_parts parts)
unfolding given_parts
given_parts-All [] = tt
given_parts-All (p ∷ ps) =
    if_rule (All Given) (is_empty (trim_space p)) _ _ (λ _. given_parts-All ps)
      (λ e. (is_empty-trim_space_twice p ∙ e, given_parts-All ps))

split_csv-All : (s : String) → All Given (split_csv s)
unfolding split_csv
split_csv-All s = given_parts-All (split_on b',' s)

local_broker : broker_defaults [] ≡ "localhost:9092" ∷ []
unfolding broker_defaults contains
local_broker = refl

pub broker_defaults-BrokersFilled :
    (brokers : List String) → BrokersFilled brokers (broker_defaults brokers)
broker_defaults-BrokersFilled [] = record {
  none_given = λ _. local_broker;
  one_kept = λ b e c. absurd (ground (arith, e));
  one_split = λ b e c. absurd (ground (arith, e));
  more_kept = λ a b cs e. absurd (ground (arith, e));
}
broker_defaults-BrokersFilled (x ∷ []) = record {
  none_given = λ e. absurd (ground (arith, e));
  one_kept = λ b e c.
      unfold broker_defaults in (let same : x ≡ b = ground (arith, e) in rw (same, c) refl);
  one_split = λ b e c.
      unfold broker_defaults in
      (let same : x ≡ b = ground (arith, e) in rw (same, c) (split_csv-All b));
  more_kept = λ a b cs e. absurd (ground (arith, e));
}
broker_defaults-BrokersFilled (x ∷ y ∷ zs) = record {
  none_given = λ e. absurd (ground (arith, e));
  one_kept = λ b e c. absurd (ground (arith, e));
  one_split = λ b e c. absurd (ground (arith, e));
  more_kept = λ a b cs e. unfold broker_defaults in e;
}
