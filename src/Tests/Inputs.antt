-- ===== src/Tests/Inputs.antt =====
-- The inputs that the tests share.
use routing_slip_pattern.Common.{
  ℕ, suc, String, true, false, List, [], ◌∷◌, none, ltb, leb, ◌==◌, if◌then◌else◌,
}
use routing_slip_pattern.Common.Int.{ℤ, pos, pos_part}
use routing_slip_pattern.Value.{Value, Fields, end, field, str, int, list, object, nil, cons}
use routing_slip_pattern.Slip.Resilience.{ResiliencePolicy}
use routing_slip_pattern.Slip.Message.{Message, StepDef}
use routing_slip_pattern.Slip.Snapshot.{MessageSnapshot}
use routing_slip_pattern.Slip.Router.{World, Router, stop_on_error}
use routing_slip_pattern.Slip.Middleware.{recovery_middleware}
use routing_slip_pattern.Config.{AppConfig, QueueTriggerConfig, WorkflowConfig}
use routing_slip_pattern.Handlers.Conditions.{Scalars, err}

-- Its state is a clock that every reading moves on; identifiers are constants.
abbrev pub world : World ℕ
world = record {
  now = λ w. (w, suc w);
  ctx_err = λ w. (none, w);
  sleep = λ d w. (none, suc w);
  hex_id =
      λ n w. (if n == 16 then "0123456789abcdef0123456789abcdef" else "0123456789abcdef", suc w);
  random = λ w. (λ n. 0, w);
  range = λ d w. (d, w);
  quote = λ s. s;
}

abbrev pub scalars : Scalars
scalars = record {
  of_int = pos_part;
  parse_float = λ s. err "no number";
  of_other = λ n. none;
  less = ltb;
  at_most = leb;
  same = λ a b. a == b;
  sprint = λ v. "value";
  deep_equal = λ a b. false;
  other_len = λ n. none;
  quote = λ s. s;
}

abbrev pub policy : String → String → ℤ → ResiliencePolicy
policy action to attempts = record {
  retry = record {
    attempts = attempts;
    backoff = "exponential";
    initial_interval_ms = pos 100;
    max_interval_ms = pos 1000;
    jitter = false;
  };
  on_failure = record { action = action; to = to };
}

-- "total" is 5, and more than 3.
abbrev pub big : Fields
big = field "field" (str "total") (field "greater_than" (int (pos 3)) end)

abbrev pub small : Fields
small = field "field" (str "total") (field "less_than" (int (pos 3)) end)

abbrev pub conditions : Value
conditions = list (cons (object big) (cons (object small) nil))

-- The first step fails and jumps; the second is jumped over.
abbrev pub first : StepDef
first = record {
  id = "check";
  name = "assert";
  params = field "all" conditions end;
  resilience = policy "jump" "last" (pos 2);
}

abbrev pub second : StepDef
second = record { id = "never"; name = "missing"; params = end; resilience = policy "" "" (pos 0) }

abbrev pub third : StepDef
third = record { id = "last"; name = "jump_if"; params = big; resilience = policy "" "" (pos 1) }

abbrev pub steps : List StepDef
steps = first ∷ second ∷ third ∷ []

abbrev pub payload : Fields
payload = field "total" (int (pos 5)) (field "password" (str "hunter2") end)

abbrev pub message : Message
message = record {
  id = "m-1";
  created_at = 7;
  payload = payload;
  headers = [];
  correlation_id = "c-1";
  trace_id = "";
  parent_span_id = "";
  span_id = "";
  attempt = 0;
  status = "created";
  slip = steps;
  cursor = 0;
  history = [];
  errors = record { step = "early"; err = none; timestamp = 1 } ∷ [];
  step_states = [];
}

abbrev pub stored : MessageSnapshot
stored = record {
  id = "m-1";
  workflow = "orders";
  workflow_version = "1";
  status = "";
  created_at = 7;
  payload = payload;
  headers = [];
  correlation_id = "c-1";
  trace_id = "";
  parent_span_id = "";
  span_id = "";
  attempt = 0;
  slip = steps;
  cursor = pos 9;
  history = [];
  errors = [];
  step_states = [];
  updated_at = 8;
}

abbrev pub base_router : Router ℕ
base_router = record {
  handlers = [];
  cursor_controllers = [];
  error_policy = stop_on_error;
  middleware = recovery_middleware ∷ [];
  state_store = none;
  state_options = record {
    workflow = "orders";
    workflow_version = "1";
    idempotency_enabled = true;
    idempotency_key_template = "";
  };
}

abbrev queue : QueueTriggerConfig
queue = record {
  queue_url = "";
  endpoint = "";
  region = "";
  wait_time_seconds = pos 0;
  max_messages = pos 0;
  visibility_timeout = pos 0;
}

-- A configuration file that gives the service's name and a run only.
abbrev pub app_config : AppConfig
app_config = record {
  service = record { name = "orders"; run_id = "r-1" };
  trigger = record {
    type = "";
    connector = "";
    mode = "";
    rest = record { addr = ""; path = "" };
    kafka = record {
      brokers = [];
      topic = "";
      group_id = "";
      min_bytes = pos 0;
      max_bytes = pos 0;
    };
    sqs = queue;
    sns = queue;
  };
  features = record {
    tracing_enabled = none;
    mcp_enabled = false;
    async_metrics_enabled = false;
    persistent_state_enabled = false;
  };
  metrics = record { endpoint = ""; segment = ""; source = ""; tags = [] };
  state_store = record {
    type = "";
    path = "";
    table = "";
    endpoint = "";
    region = "";
    ttl_days = pos 0;
    idempotency = record { enabled = false; key_template = "" };
    processing_lock = record { enabled = none; ttl_seconds = pos 60 };
  };
  mcp = record { enabled = false; bind = ""; mode = ""; auth = record { type = ""; env = "" } };
  observability = record {
    tracing = record { enabled = false; exporter = ""; endpoint = ""; service_name = "" };
  };
  security = record { redaction = record { enabled = false; fields = [] } };
  integrations = record { graphql_endpoint = ""; external_api_url = ""; external_api_serial = "" };
}

abbrev pub workflow : WorkflowConfig
workflow = record {
  name = "orders";
  description = "";
  version = "1";
  error_policy = "stop";
  message_id_path = "id";
  correlation_id_path = "correlation_id";
  steps = [];
}
