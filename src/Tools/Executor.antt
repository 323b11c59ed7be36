-- ===== src/Tools/Executor.antt =====
-- tools/__init__.py, `ToolExecutor._execute_owner`: the attempts at one request and its owner pipeline.
pub mod Induction
pub mod Guards
pub mod Sequence
pub mod Attempts
pub mod Terminals
pub mod Asking
pub mod Ending
use proteo_runtime.Prelude.{
  ℕ, zero, suc, ◌+◌, String, Bool, true, false, not, ◌&&◌, ◌||◌, ltb, Option, none, some, List, [],
  ◌∷◌, ◌++◌, if◌then◌else◌, string_eq, ◌≡◌,
}
use proteo_runtime.Prelude.Dict.{lookup}
use proteo_runtime.Prelude.Result.{ok, raise}
use proteo_runtime.Core.Errors.{
  Py, Exc, agent, cancelled_error, timeout_error, value_error, type_error, other_error, plain_error,
  absent, counted, ErrorClass, AgentRuntimeError, Details, no_details, default_code, tool_denied,
  tool_execution, output_validation, retry_exhausted,
}
use proteo_runtime.Core.Events.{RuntimeEventKind}
use proteo_runtime.Core.Effects.{Method, pure, throw, lift, ◌>>=◌, ◌>>◌}
use proteo_runtime.Tools.Values.{Value, none_value, Render, freeze, thaw}
use proteo_runtime.Tools.Types.{
  SideEffect, none_effect, write, destructive, ApprovalRequirement, always, for_side_effects,
  ApprovalDecision, approve, deny, ToolFailurePolicy, ToolDefinition, ToolRequest, ApprovalRequest,
  ToolResult, new_tool_result, allows,
}
use proteo_runtime.Tools.Registry.{Call, Binding, Registry}
pub use proteo_runtime.Tools.Effects.{
  Answer, decided, not_a_decision, handler_timeout, handler_raised, handler_cancelled,
  caller_cancelled, Payload, no_payload, arguments, decision, next_attempt, completed, ToolEvent,
  Authority, State, Outcome, no_outcome,
}
unfoldable pub use proteo_runtime.Tools.Effects.{
  tool_event, emit, emit_terminal, emit_request, tool_error, requires_approval, read_answer, ask,
  request_approval, approval, timeout_of, call_function,
}

-- The inner `try`: the adapter's value, frozen.
adapt : Render → Option Value → Py Value
adapt r none = raise (tool_error output_validation absent false)
adapt r (some v) = elim (freeze r v) [
  | ok w ↦ ok w
  | raise e ↦ raise (tool_error output_validation absent false)
]

success_result : ToolRequest → Binding → ℕ → Value → ToolResult
success_result q b attempt output = record {
  invocation_id = q.invocation_id;
  call_id = q.call_id;
  tool_name = b.definition.name;
  success = true;
  output = output;
  error_code = none;
  attempts = attempt;
  denied = false;
  timed_out = false;
}

-- The body of the outer `try` of one attempt.
unfoldable pub try_attempt : Authority → ToolRequest → Binding → Value → ℕ → Method State ToolResult
unfolding adapt success_result
try_attempt a q b validated attempt = do
  output ← call_function a b validated
  frozen ← lift (adapt a.render (b.output_adapter.convert output))
  result ← lift (new_tool_result a.render (success_result q b attempt frozen))
  dumped ← lift (b.input_model.model_dump validated)
  emit a RuntimeEventKind.tool_completed q (some b.definition) attempt
      (record no_outcome { success = some true }) (completed dumped (thaw a.render frozen))
  pure result

-- What the `except` clauses make of an exception: it leaves the pipeline as it is, it leaves it behind a
-- terminal event, or it is the last error of a failed attempt.
pub data Handled : Type 0 where
  propagate terminal failed : Exc → Handled

handle_class : AgentRuntimeError → ErrorClass → Handled
handle_class e output_validation = terminal (agent e)
handle_class e tool_execution = failed (agent e)
handle_class e _ = failed (tool_error tool_execution absent false)

unfoldable pub handle : Exc → Handled
unfolding handle_class
handle timeout_error = failed (tool_error tool_execution absent true)
handle cancelled_error = propagate cancelled_error
handle (agent e) = handle_class e e.class
handle _ = failed (tool_error tool_execution absent false)

pub data Attempt : Type 0 where
  returned : ToolResult → Attempt
  errored : Exc → Attempt

-- The `except` clauses of one attempt.
unfoldable pub recover : Authority → ToolRequest → Binding → ℕ → Handled → Method State Attempt
recover a q b attempt (propagate e) = throw e
recover a q b attempt (terminal e) = do
  emit_terminal a q (some b.definition) RuntimeEventKind.tool_failed attempt "tool_execution_error"
      false false
  throw e
recover a q b attempt (failed e) = pure (errored e)

unfoldable pub settle_attempt :
    Authority → ToolRequest → Binding → ℕ → Py ToolResult → Method State Attempt
settle_attempt a q b attempt (ok result) = pure (returned result)
settle_attempt a q b attempt (raise e) = recover a q b attempt (handle e)

unfoldable pub run_attempt : Authority → ToolRequest → Binding → Value → ℕ → Method State Attempt
run_attempt a q b validated attempt s =
    let (r, t) = try_attempt a q b validated attempt s in settle_attempt a q b attempt r t

unfoldable pub is_timed_out : Exc → Bool
is_timed_out (agent e) = elim e.class [
  | tool_execution ↦ e.details.timed_out
  | output_validation ↦ e.details.timed_out
  | _ ↦ false
]
is_timed_out _ = false

-- After the loop.
unfoldable pub exhausted : Authority → ToolRequest → Binding → Exc → Method State ToolResult
exhausted a q b last = do
  emit_terminal a q (some b.definition) RuntimeEventKind.tool_failed a.max_attempts
      (if ltb 1 a.max_attempts then "retry_exhausted" else "tool_execution_error") false
      (is_timed_out last)
  throw (
      if ltb 1 a.max_attempts
      then tool_error retry_exhausted (counted a.max_attempts) false
      else last)

unfoldable pub schedule : Authority → ToolRequest → Binding → ℕ → Method State (Unit {0})
schedule a q b attempt =
    if ltb attempt a.max_attempts
    then emit a RuntimeEventKind.tool_retry_scheduled q (some b.definition) attempt no_outcome
        (next_attempt (attempt + 1))
    else pure tt

-- A result ends the loop; after an error it goes on.
unfoldable pub next_round : (Exc → Method State ToolResult) → Attempt → Method State ToolResult
next_round again (returned result) = pure result
next_round again (errored e) = again e

-- `for attempt in range(1, max_attempts + 1)`, by the attempts left.
unfoldable pub attempts_loop :
    Authority → ToolRequest → Binding → Value → ℕ → ℕ → Exc → Method State ToolResult
attempts_loop a q b validated zero attempt last = exhausted a q b last
attempts_loop a q b validated (suc left) attempt last = do
  emit a RuntimeEventKind.tool_started q (some b.definition) attempt no_outcome no_payload
  r ← run_attempt a q b validated attempt
  next_round (λ e. schedule a q b attempt >> attempts_loop a q b validated left (attempt + 1) e) r

-- A refused request: its terminal event, then the exception.
unfoldable pub refuse :
    Authority
    → ToolRequest
    → ToolDefinition
    → RuntimeEventKind
    → String
    → Bool
    → Exc
    → Method State ToolResult
refuse a q d kind code denied e = do emit_terminal a q (some d) kind 0 code denied false; throw e

-- From the retry guard on. `last_error` is None before the first attempt: `plain_error` stands for the
-- assertion that a loop of no attempt would fail.
unfoldable pub run_approved : Authority → ToolRequest → Binding → Value → Method State ToolResult
run_approved a q b validated =
    if ltb 1 a.max_attempts && not b.definition.idempotent
    then refuse a q b.definition RuntimeEventKind.tool_failed "tool_execution_error" false
        (tool_error tool_execution (counted 0) false)
    else attempts_loop a q b validated a.max_attempts 1 plain_error

unfoldable pub run_decided :
    Authority → ToolRequest → Binding → Value → ApprovalDecision → Method State ToolResult
run_decided a q b validated approve = run_approved a q b validated
run_decided a q b validated deny =
    refuse a q b.definition RuntimeEventKind.tool_denied "tool_denied" true
      (tool_error tool_denied absent false)

unfoldable pub run_permitted : Authority → ToolRequest → Binding → Value → Method State ToolResult
run_permitted a q b validated =
    if requires_approval b.definition
    then (do
      emit a RuntimeEventKind.tool_approval_requested q (some b.definition) 0 no_outcome no_payload
      d ← approval a q b validated
      emit a RuntimeEventKind.tool_approval_resolved q (some b.definition) 0 no_outcome (decision d)
      run_decided a q b validated d)
    else run_approved a q b validated

unfoldable pub run_validated : Authority → ToolRequest → Binding → Value → Method State ToolResult
run_validated a q b validated =
    if allows a.permission_policy b.definition.permission
    then run_permitted a q b validated
    else refuse a q b.definition RuntimeEventKind.tool_denied "tool_denied" true
        (tool_error tool_denied absent false)

-- Behind the validation of the arguments.
unfoldable pub run_arguments :
    Authority → ToolRequest → Binding → Option Value → Method State ToolResult
run_arguments a q b none = do
  emit a RuntimeEventKind.validation_failed q (some b.definition) 0 no_outcome no_payload
  refuse a q b.definition RuntimeEventKind.tool_failed "tool_execution_error" false
      (tool_error tool_execution absent false)
run_arguments a q b (some validated) = run_validated a q b validated

unfoldable pub run_bound : Authority → ToolRequest → Option Binding → Method State ToolResult
run_bound a q none = do
  emit_request a q none
  emit_terminal a q none RuntimeEventKind.tool_failed 0 "tool_execution_error" false false
  throw (tool_error tool_execution absent false)
run_bound a q (some b) = do
  emit_request a q (some b.definition)
  run_arguments a q b (b.input_model.model_validate (thaw a.render q.arguments))

-- `_execute_owner`
unfoldable pub execute_owner : Authority → ToolRequest → Method State ToolResult
execute_owner a q = run_bound a q (lookup q.name a.snapshot)
