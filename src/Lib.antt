-- ===== src/Lib.antt =====
-- The routing slip library of app/slip, the control-flow and basic handlers of app/handlers, and the
-- runtime of package app, which feeds payloads to them by a configured workflow, verified.
--
-- A message carries its routing slip: a list of steps and a cursor. The router takes the step under
-- the cursor, runs the handler registered for it, wrapped in the middleware, with the retries and the
-- failure policy of the step, saves a snapshot of the message before and after, and goes on until the
-- slip is exhausted, a handler asks to stop, or an error ends the run. A state store keeps the
-- snapshots and the claims of workers on messages.
--
-- The runtime claims the message that a payload stands for, restores or makes it, hands it to the
-- router, and gives the claim back.
--
-- Files, by the part of the program:
--   Common (Tests, Lists, Int, Text, Dict): shared operators and lemmas; Text has the functions of
--     package strings that the code calls; a Go map is an association list.
--   Value: Go's `any` as far as the code looks into it; Value/Path is the loop of Message.GetPath,
--     Value/Put the writers setPayloadPath of app/handlers/filter_array.go and of app/triggers.go.
--   Slip/Resilience: app/slip/resilience.go. A time.Duration is an int64 with its wrap-around.
--   Slip/Errors: the errors of package slip, one constructor for each.
--   Slip/Message: Message of app/slip/slip.go; a method is a function to the next message.
--   Slip/Snapshot: Message.Snapshot and MessageFromSnapshot of app/slip/slip.go.
--   Slip/Trace: app/slip/trace_context.go.
--   Slip/Router: Router of app/slip/slip.go. Router holds the types, options and Register;
--     Router/Key is stepExecutionKey; Router/Attempts is handleStep, with its calls counted in
--     Attempts/Calls; Router/Step and Step/Take are a round of the loop of Process, one
--     function for each part of its body, with handleStepFailure; Router/Process is Process.
--     Router/Step/Post and Router/Process/Rule have the rules that the proofs about rounds and
--     runs use; Router/Progress is about termination, Router/Idempotency about skipped steps,
--     Router/Registry about Register and the middleware's order, Router/SelfJump about a failure
--     jump that goes back.
--   Slip/Middleware: the logging, recovery and tracing middleware of app/slip/middleware.go.
--   Slip/Store: app/slip/state_store.go. Store/Memory is MemoryStateStore, with the abstract store
--     that it implements in Memory/Refines; Store/Filter is the filter of List and its loop, Store/FileName
--     safeStateFileName, Store/Files FileStateStore on a directory of texts, with the claims of
--     several processes in Files/Claims.
--   Slip/Redaction: app/slip/redaction.go.
--   Handlers/Conditions, Handlers/ControlFlow: app/handlers/control_flow.go.
--   Handlers/Basic: validate, transform, condition, notify and audit of app/handlers/handlers.go;
--     Handlers/Interpolate is its interpolate, whose loop takes fuel.
--   Handlers/FilterArray, Handlers/ArrayTransform: app/handlers/filter_array.go and
--     app/handlers/array_transform.go; ArrayTransform/Updates is what is done to one item,
--     ArrayTransform/Sets where its values would be shared.
--   Config: the types of app/runtime_config.go; Config/Defaults is applyConfigDefaults and
--     validateAppConfig; Config/Environment is expandEnvDefaults and ApplyIntegrationEnv;
--     Config/Workflow the defaults, slip and error policy of a workflow; Config/References is
--     loadWorkflowConfigWithStack with the expansion of workflow_ref, References/Ids the ids and
--     targets of the steps that it brings in, and References/Expansion the relation that Expanded
--     shows it to follow.
--   Runtime: processPayload of app/triggers.go. Runtime/Store has the interfaces of a store and the
--     store in memory as one; Runtime/Laws is about its end, Runtime/Lease about its claim,
--     Runtime/Resume and Runtime/Continues about stored messages.
--   Tests: the theorems at concrete inputs.
--
-- State and errors. A function that may panic or fail has an outcome or a result type of its own.
-- Everything outside the library, the clock, the end of the context, timers, random numbers, the
-- order in which a map is iterated, what a store or a handler does, is a function on a state `W` of
-- the world, collected in the record World of Slip/Router. Loops are structural recursion; the loop
-- of Process takes fuel, and one round more than there are steps left is enough where jumps go
-- forward. A jump of a failure policy may also go back, and then the code itself may not end. The
-- loading of workflows takes fuel for the depth of references, and one more than there are files is
-- enough, for the code refuses a circle.
--
-- Assumptions: texts are valid UTF-8; `to_lower` lowers ASCII letters and is compared with ASCII
-- words only, or cleaned to ASCII; a message belongs to one goroutine while the router works on it, so
-- that a method under its mutex is one step; a handler either returns or panics, and a controller
-- returns. Integers other than durations stay far below 2 ^ 63.
--
-- Not modelled: logging; the metrics middleware; the store on DynamoDB; the handlers that call HTTP,
-- GraphQL, AWS or CEL, and enrich; the reading of YAML; the loops of the triggers, the MCP server and
-- the command line, which are input and output around this core. Where two places of a payload share
-- one map, a write shows in both, which the model does not have; `array_transform` therefore ends in
-- the outcome `shares` at a `set` that would put a map or a list in two places, where the code goes
-- on. The transforms that nest in it take fuel for their depth, and more than the depth of the
-- parameters is enough.
pub mod Common
pub mod Value
pub mod Slip
pub mod Config
pub mod Handlers
pub mod Runtime
pub mod Tests
