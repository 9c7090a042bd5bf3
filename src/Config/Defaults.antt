-- ===== src/Config/Defaults.antt =====
-- `applyConfigDefaults`, `validateAppConfig` and `splitCSV` of app/runtime_config.go, and `env` of
-- app/main.go. The environment is a function; `started` is the time as `Format("20060102150405")`
-- writes it. An absent map of tags and an empty one are the same.
pub mod Filled
pub mod Fills
pub mod Complete
use routing_slip_pattern.Common.{
  String, Bool, true, false, ◌&&◌, ◌||◌, not, List, [], ◌∷◌, Option, none, some, str_eq,
  if◌then◌else◌,
}
use routing_slip_pattern.Common.Int.{ℤ, pos, is_positive}
use routing_slip_pattern.Common.Text.{trim_space, to_lower, is_empty, split_on, contains}
use routing_slip_pattern.Common.Dict.{Dict, insert}
use routing_slip_pattern.Slip.Snapshot.{header}
use routing_slip_pattern.Config.{
  AppConfig, ServiceConfig, TriggerConfig, RestTriggerConfig, KafkaTriggerConfig,
  QueueTriggerConfig, MetricsConfig, FeatureFlagsConfig, StateStoreConfig, McpConfig,
  ObservabilityConfig, SecurityConfig,
}
use routing_slip_pattern.Config.Workflow.{or_default}

-- `os.Getenv`.
abbrev pub Environment : Type 0
Environment = String → String

unfoldable pub env : Environment → String → String → String
unfolding trim_space
env getenv key fallback =
    if is_empty (trim_space (getenv key)) then fallback else trim_space (getenv key)

abbrev pub or_text : String → String → String
or_text value default_value = if is_empty value then default_value else value

abbrev pub or_number : ℤ → ℤ → ℤ
or_number value default_value = if is_positive value then value else default_value

-- Trimmed and in lower case.
unfoldable pub lowered : String → String
unfolding trim_space to_lower
lowered s = to_lower (trim_space s)

given_parts : List String → List String
unfolding trim_space
given_parts [] = []
given_parts (p ∷ ps) =
    let rest = given_parts ps in if is_empty (trim_space p) then rest else trim_space p ∷ rest

unfoldable pub split_csv : String → List String
unfolding given_parts split_on
split_csv value = given_parts (split_on b',' value)

-- One broker that holds a comma is a list of brokers.
abbrev one_broker : List String → List String
one_broker (b ∷ []) = if contains "," b then split_csv b else b ∷ []
one_broker bs = bs

abbrev some_brokers : List String → List String
some_brokers [] = "localhost:9092" ∷ []
some_brokers bs = bs

unfoldable pub broker_defaults : List String → List String
unfolding split_csv contains
broker_defaults brokers = one_broker (some_brokers brokers)

unfoldable pub service_defaults : String → ServiceConfig → ServiceConfig
unfolding trim_space
service_defaults started s = record {
  name = or_default s.name "routing-slip-pattern";
  run_id = or_default s.run_id started;
}

unfoldable pub kafka_defaults : KafkaTriggerConfig → KafkaTriggerConfig
unfolding trim_space broker_defaults
kafka_defaults k = record {
  brokers = broker_defaults k.brokers;
  topic = or_default k.topic "payment-events";
  group_id = or_default k.group_id "routing-slip-pattern";
  min_bytes = or_number k.min_bytes (pos 1);
  max_bytes = or_number k.max_bytes (pos 10000000);
}

unfoldable pub sqs_defaults : QueueTriggerConfig → QueueTriggerConfig
unfolding trim_space
sqs_defaults q = record {
  queue_url = or_default q.queue_url "http://localhost:4566/000000000000/payment-events";
  endpoint = or_default q.endpoint "http://localhost:4566";
  region = or_default q.region "us-east-1";
  wait_time_seconds = or_number q.wait_time_seconds (pos 10);
  max_messages = or_number q.max_messages (pos 1);
  visibility_timeout = or_number q.visibility_timeout (pos 30);
}

-- What SNS does not give is taken from SQS.
unfoldable pub sns_defaults : (sqs sns : QueueTriggerConfig) → QueueTriggerConfig
unfolding trim_space
sns_defaults sqs q = record {
  queue_url = or_default q.queue_url "http://localhost:4566/000000000000/payment-events-sns";
  endpoint = or_default q.endpoint sqs.endpoint;
  region = or_default q.region sqs.region;
  wait_time_seconds = or_number q.wait_time_seconds sqs.wait_time_seconds;
  max_messages = or_number q.max_messages sqs.max_messages;
  visibility_timeout = or_number q.visibility_timeout sqs.visibility_timeout;
}

unfoldable pub trigger_defaults : TriggerConfig → TriggerConfig
unfolding trim_space lowered kafka_defaults sqs_defaults sns_defaults
trigger_defaults t =
    let connector = or_text (or_text (lowered t.connector) (lowered t.type)) "rest" in
    record {
      type = or_text (lowered t.type) connector;
      connector = connector;
      mode = or_text (lowered t.mode) (if str_eq connector "rest" then "sync" else "async");
      rest = record {
        addr = or_default t.rest.addr ":8088";
        path = or_default t.rest.path "/process";
      };
      kafka = kafka_defaults t.kafka;
      sqs = sqs_defaults t.sqs;
      sns = sns_defaults (sqs_defaults t.sqs) t.sns;
    }

module _ (getenv : Environment) where
  unfoldable pub metrics_defaults : String → MetricsConfig → MetricsConfig
  unfolding trim_space env header insert
  metrics_defaults run_id m = record {
    endpoint =
        or_default m.endpoint (env getenv "METRICS_ENDPOINT" "http://localhost:8080/v1/metrics");
    segment = or_default m.segment "local-demo";
    source = or_default m.source "routing-slip-app";
    tags = if is_empty (header "run_id" m.tags) then insert "run_id" run_id m.tags else m.tags;
  }

  unfoldable pub state_store_defaults : StateStoreConfig → StateStoreConfig
  unfolding trim_space env lowered
  state_store_defaults s = record s {
    type = or_text (lowered s.type) "memory";
    path = or_default s.path ".routing-slip-state";
    table = or_default s.table "routing-slip-state";
    region = or_default s.region (env getenv "AWS_REGION" "us-east-1");
    ttl_days = or_number s.ttl_days (pos 30);
    idempotency = record {
      enabled = s.idempotency.enabled;
      key_template =
          or_default s.idempotency.key_template "{workflow}:{message_id}:{step_index}:{step}";
    };
    processing_lock = record {
      enabled = elim s.processing_lock.enabled [ none ↦ some true | some b ↦ some b ];
      ttl_seconds = or_number s.processing_lock.ttl_seconds (pos 300);
    };
  }

unfoldable pub mcp_defaults : FeatureFlagsConfig → McpConfig → McpConfig
unfolding trim_space lowered
mcp_defaults features m = record {
  enabled = if features.mcp_enabled then true else m.enabled;
  bind = or_default m.bind "127.0.0.1:9091";
  mode = or_text (lowered m.mode) "readonly";
  auth = record {
    type = or_text (lowered m.auth.type) "none";
    env = or_default m.auth.env "ROUTING_SLIP_MCP_API_KEY";
  };
}

unfoldable pub observability_defaults : String → ObservabilityConfig → ObservabilityConfig
unfolding trim_space
observability_defaults name o = record {
  tracing = record o.tracing {
    exporter = or_default o.tracing.exporter "none";
    service_name = or_default o.tracing.service_name name;
  };
}

abbrev redacted_fields : List String
redacted_fields =
    "authorization" ∷ "client_secret" ∷ "access_token" ∷ "refresh_token" ∷ "password" ∷ "token"
    ∷ "api_key" ∷ "x-api-key" ∷ []

abbrev pub no_fields : List String → Bool
no_fields [] = true
no_fields (f ∷ fs) = false

unfoldable pub security_defaults : SecurityConfig → SecurityConfig
security_defaults s =
    if not s.redaction.enabled && no_fields s.redaction.fields
    then record { redaction = record { enabled = true; fields = redacted_fields } }
    else s

unfoldable pub apply_config_defaults : Environment → String → AppConfig → AppConfig
unfolding service_defaults trigger_defaults metrics_defaults state_store_defaults mcp_defaults
    observability_defaults security_defaults
apply_config_defaults getenv started cfg =
    let service = service_defaults started cfg.service in
    record {
      service = service;
      trigger = trigger_defaults cfg.trigger;
      features = record cfg.features {
        tracing_enabled = elim cfg.features.tracing_enabled [ none ↦ some true | some b ↦ some b ];
      };
      metrics = metrics_defaults getenv service.run_id cfg.metrics;
      state_store = state_store_defaults getenv cfg.state_store;
      mcp = mcp_defaults cfg.features cfg.mcp;
      observability = observability_defaults service.name cfg.observability;
      security = security_defaults cfg.security;
      integrations = cfg.integrations;
    }

-- The setting that `validateAppConfig` refuses; the text of the error, which shows it, is left out.
pub data Unsupported : Type 0 where
  trigger_connector : Unsupported
  trigger_mode : Unsupported
  state_store_type : Unsupported
  mcp_mode : Unsupported
  mcp_auth_type : Unsupported

-- A `switch` over the texts that are allowed.
abbrev pub is_one_of : String → List String → Bool
is_one_of s [] = false
is_one_of s (t ∷ ts) = str_eq s t || is_one_of s ts

-- `none` is a nil error.
unfoldable pub validate_app_config : AppConfig → Option Unsupported
validate_app_config cfg =
    if not (is_one_of cfg.trigger.connector ("rest" ∷ "kafka" ∷ "sqs" ∷ "sns" ∷ []))
    then some trigger_connector
    else if not (is_one_of cfg.trigger.mode ("sync" ∷ "async" ∷ []))
    then some trigger_mode
    else if not (is_one_of cfg.state_store.type ("memory" ∷ "file" ∷ "dynamodb" ∷ []))
    then some state_store_type
    else if not (is_one_of cfg.mcp.mode ("readonly" ∷ "maintenance" ∷ []))
    then some mcp_mode
    else if not (is_one_of cfg.mcp.auth.type ("none" ∷ "api_key" ∷ []))
    then some mcp_auth_type
    else none
