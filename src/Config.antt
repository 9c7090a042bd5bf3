-- ===== src/Config.antt =====
-- The configuration types of app/runtime_config.go. A `*bool` is an Option Bool; a nil map of
-- parameters is an empty one, which no code here tells from it.
pub mod Defaults
pub mod Environment
pub mod Workflow
pub mod References
use routing_slip_pattern.Common.{String, Bool, List, Option}
use routing_slip_pattern.Common.Int.{ℤ}
use routing_slip_pattern.Common.Dict.{Dict}
use routing_slip_pattern.Value.{Fields}
use routing_slip_pattern.Slip.Resilience.{ResiliencePolicy}

pub record ServiceConfig : Type 0 where
  pub name : String
  pub run_id : String

pub record RestTriggerConfig : Type 0 where
  pub addr : String
  pub path : String

pub record KafkaTriggerConfig : Type 0 where
  pub brokers : List String
  pub topic : String
  pub group_id : String
  pub min_bytes : ℤ
  pub max_bytes : ℤ

-- `SQSTriggerConfig` and `SNSTriggerConfig` have the same fields.
pub record QueueTriggerConfig : Type 0 where
  pub queue_url : String
  pub endpoint : String
  pub region : String
  pub wait_time_seconds : ℤ
  pub max_messages : ℤ
  pub visibility_timeout : ℤ

pub record TriggerConfig : Type 0 where
  pub type : String
  pub connector : String
  pub mode : String
  pub rest : RestTriggerConfig
  pub kafka : KafkaTriggerConfig
  pub sqs : QueueTriggerConfig
  pub sns : QueueTriggerConfig

pub record MetricsConfig : Type 0 where
  pub endpoint : String
  pub segment : String
  pub source : String
  pub tags : Dict String

pub record StateIdempotencyConfig : Type 0 where
  pub enabled : Bool
  pub key_template : String

pub record StateProcessingLockConfig : Type 0 where
  pub enabled : Option Bool
  pub ttl_seconds : ℤ

pub record StateStoreConfig : Type 0 where
  pub type : String
  pub path : String
  pub table : String
  pub endpoint : String
  pub region : String
  pub ttl_days : ℤ
  pub idempotency : StateIdempotencyConfig
  pub processing_lock : StateProcessingLockConfig

pub record McpAuthConfig : Type 0 where
  pub type : String
  pub env : String

pub record McpConfig : Type 0 where
  pub enabled : Bool
  pub bind : String
  pub mode : String
  pub auth : McpAuthConfig

pub record FeatureFlagsConfig : Type 0 where
  pub tracing_enabled : Option Bool
  pub mcp_enabled : Bool
  pub async_metrics_enabled : Bool
  pub persistent_state_enabled : Bool

pub record TracingConfig : Type 0 where
  pub enabled : Bool
  pub exporter : String
  pub endpoint : String
  pub service_name : String

pub record ObservabilityConfig : Type 0 where
  pub tracing : TracingConfig

pub record RedactionConfig : Type 0 where
  pub enabled : Bool
  pub fields : List String

pub record SecurityConfig : Type 0 where
  pub redaction : RedactionConfig

pub record IntegrationsConfig : Type 0 where
  pub graphql_endpoint : String
  pub external_api_url : String
  pub external_api_serial : String

pub record AppConfig : Type 0 where
  pub service : ServiceConfig
  pub trigger : TriggerConfig
  pub features : FeatureFlagsConfig
  pub metrics : MetricsConfig
  pub state_store : StateStoreConfig
  pub mcp : McpConfig
  pub observability : ObservabilityConfig
  pub security : SecurityConfig
  pub integrations : IntegrationsConfig

pub record StepConfig : Type 0 where
  pub id : String
  pub name : String
  pub enabled : Option Bool
  pub params : Fields
  pub resilience : ResiliencePolicy

pub record WorkflowConfig : Type 0 where
  pub name : String
  pub description : String
  pub version : String
  pub error_policy : String
  pub message_id_path : String
  pub correlation_id_path : String
  pub steps : List StepConfig
