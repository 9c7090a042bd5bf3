-- ===== src/Config/Defaults/Filled.antt =====
-- What `applyConfigDefaults` of app/runtime_config.go is to do, setting by setting: what is missing is
-- filled in, and what is given stays.
use routing_slip_pattern.Common.{String, Bool, true, false, List, [], ◌∷◌, Option, some, ◌≡◌, All}
use routing_slip_pattern.Common.Int.{ℤ, is_positive}
use routing_slip_pattern.Common.Text.{trim_space, is_empty, contains}
use routing_slip_pattern.Slip.Snapshot.{header}
use routing_slip_pattern.Config.{
  AppConfig, KafkaTriggerConfig, TriggerConfig, QueueTriggerConfig, FeatureFlagsConfig,
  StateStoreConfig, McpConfig, MetricsConfig, TracingConfig, SecurityConfig,
}
use routing_slip_pattern.Config.Defaults.{lowered, no_fields}

-- The text is more than space.
abbrev pub Given : String → Type 0
Given s = is_empty (trim_space s) ≡ false

abbrev pub NonEmpty : String → Type 0
NonEmpty s = is_empty s ≡ false

abbrev pub Positive : ℤ → Type 0
Positive n = is_positive n ≡ true

-- A text: not blank after, and as it was if it was given.
abbrev pub Filled : String → String → Type 0
Filled value result = Given result × (Given value → result ≡ value)

-- A choice: not empty after, and trimmed and in lower case if it was given.
abbrev pub Lowered : String → String → Type 0
Lowered value result = NonEmpty result × (NonEmpty (lowered value) → result ≡ lowered value)

-- A size or a time: positive after, and as it was if it was positive.
abbrev pub Counted : ℤ → ℤ → Type 0
Counted value result = Positive result × (Positive value → result ≡ value)

-- A switch: on or off after, and as it was if it was on or off.
abbrev pub Decided : Option Bool → Option Bool → Type 0
Decided value result =
    ((b : Bool) × (result ≡ some b)) × ((b : Bool) → value ≡ some b → result ≡ some b)

-- Brokers: those that are given stay, but one with commas is split and may leave none.
pub record BrokersFilled (brokers result : List String) : Type 0 where
  pub none_given : brokers ≡ [] → result ≡ "localhost:9092" ∷ []
  pub one_kept : (b : String) → brokers ≡ b ∷ [] → contains "," b ≡ false → result ≡ b ∷ []
  pub one_split : (b : String) → brokers ≡ b ∷ [] → contains "," b ≡ true → All Given result
  pub more_kept : (a b : String) (cs : List String) → brokers ≡ a ∷ b ∷ cs → result ≡ a ∷ b ∷ cs

pub record KafkaFilled (k r : KafkaTriggerConfig) : Type 0 where
  pub brokers : BrokersFilled k.brokers r.brokers
  pub topic : Filled k.topic r.topic
  pub group_id : Filled k.group_id r.group_id
  pub min_bytes : Counted k.min_bytes r.min_bytes
  pub max_bytes : Counted k.max_bytes r.max_bytes

pub record QueueFilled (q r : QueueTriggerConfig) : Type 0 where
  pub queue_url : Filled q.queue_url r.queue_url
  pub endpoint : Filled q.endpoint r.endpoint
  pub region : Filled q.region r.region
  pub wait_time_seconds : Counted q.wait_time_seconds r.wait_time_seconds
  pub max_messages : Counted q.max_messages r.max_messages
  pub visibility_timeout : Counted q.visibility_timeout r.visibility_timeout

pub record TriggerFilled (t r : TriggerConfig) : Type 0 where
  pub type : Lowered t.type r.type
  pub connector : Lowered t.connector r.connector
  pub connector_of_type :
      is_empty (lowered t.connector) ≡ true
      → NonEmpty (lowered t.type)
      → r.connector ≡ lowered t.type
  pub mode : Lowered t.mode r.mode
  pub addr : Filled t.rest.addr r.rest.addr
  pub path : Filled t.rest.path r.rest.path
  pub kafka : KafkaFilled t.kafka r.kafka
  pub sqs : QueueFilled t.sqs r.sqs
  pub sns : QueueFilled t.sns r.sns

pub record StoreFilled (s r : StateStoreConfig) : Type 0 where
  pub type : Lowered s.type r.type
  pub path : Filled s.path r.path
  pub table : Filled s.table r.table
  pub region : Filled s.region r.region
  pub endpoint_same : r.endpoint ≡ s.endpoint
  pub ttl_days : Counted s.ttl_days r.ttl_days
  pub idempotency_same : r.idempotency.enabled ≡ s.idempotency.enabled
  pub key_template : Filled s.idempotency.key_template r.idempotency.key_template
  pub lock_decided : Decided s.processing_lock.enabled r.processing_lock.enabled
  pub lock_ttl : Counted s.processing_lock.ttl_seconds r.processing_lock.ttl_seconds

pub record MetricsFilled (m r : MetricsConfig) : Type 0 where
  pub endpoint : Filled m.endpoint r.endpoint
  pub segment : Filled m.segment r.segment
  pub source : Filled m.source r.source
  pub tagged : NonEmpty (header "run_id" r.tags)
  pub tags_kept : NonEmpty (header "run_id" m.tags) → r.tags ≡ m.tags

-- The feature switches it on.
pub record McpFilled (features : FeatureFlagsConfig) (m r : McpConfig) : Type 0 where
  pub switched_on : features.mcp_enabled ≡ true → r.enabled ≡ true
  pub switch_kept : features.mcp_enabled ≡ false → r.enabled ≡ m.enabled
  pub bind : Filled m.bind r.bind
  pub mode : Lowered m.mode r.mode
  pub auth_type : Lowered m.auth.type r.auth.type
  pub auth_env : Filled m.auth.env r.auth.env

-- Its switch and its endpoint, which may be blank, stay.
pub record TracingFilled (t r : TracingConfig) : Type 0 where
  pub exporter : Filled t.exporter r.exporter
  pub service_name : Filled t.service_name r.service_name
  pub else_same : r ≡ record t { exporter = r.exporter; service_name = r.service_name }

-- Redaction that is off and names no fields is switched on; any other stays.
pub record SecurityFilled (s r : SecurityConfig) : Type 0 where
  pub redacts : r.redaction.enabled ≡ false → no_fields r.redaction.fields ≡ false
  pub on_kept : s.redaction.enabled ≡ true → r ≡ s
  pub fields_kept : no_fields s.redaction.fields ≡ false → r ≡ s

-- Every setting of the configuration, before and after.
pub record IsComplete (cfg r : AppConfig) : Type 0 where
  pub name : Filled cfg.service.name r.service.name
  pub run_id : Filled cfg.service.run_id r.service.run_id
  pub trigger : TriggerFilled cfg.trigger r.trigger
  pub tracing_decided : Decided cfg.features.tracing_enabled r.features.tracing_enabled
  pub features_same :
      r.features ≡ record cfg.features { tracing_enabled = r.features.tracing_enabled }
  pub metrics : MetricsFilled cfg.metrics r.metrics
  pub state_store : StoreFilled cfg.state_store r.state_store
  pub mcp : McpFilled cfg.features cfg.mcp r.mcp
  pub tracing : TracingFilled cfg.observability.tracing r.observability.tracing
  pub security : SecurityFilled cfg.security r.security
  pub integrations_same : r.integrations ≡ cfg.integrations
