-- ===== src/Codex/Structured.antt =====
-- providers/codex/_structured.py: structured output, validated by the host and tried again by the provider.
-- A turn is one of the runner; the time and the identity of the runtime on an event are left out.
pub mod Numbering
pub mod Turns
pub mod Bounds
pub mod Tally
pub mod Completion
pub mod Progress
use Prim.Native.Char.{code}
use Prim.Native.String.{String}
use proteo_runtime.Prelude.{
  ℕ, zero, suc, ◌+◌, ◌-◌, Bool, true, false, ◌&&◌, nat_beq, leb, ◌⊎◌, inl, inr, Option, none, some,
  List, [], ◌∷◌, ◌++◌, map, length, string_eq, if◌then◌else◌,
}
use proteo_runtime.Prelude.Dict.{Dict, insert}
use proteo_runtime.Prelude.Result.{ok, raise}
use proteo_runtime.Prelude.Text.{concat}
use proteo_runtime.Core.Errors.{
  Py, Exc, agent, cancelled_error, no_details, counted, error, value_error, capability,
  structured_output, default_code,
}
use proteo_runtime.Core.Events.{RuntimeEventKind}
use proteo_runtime.Core.Effects.{Method, pure, throw, lift, ◌>>=◌, ◌>>◌}
use proteo_runtime.Core.Input.{join}
use proteo_runtime.Tools.Values.{Value, int_value, str_value, tuple_value, Items, nil, cons}
use proteo_runtime.Codex.Turns.{RuntimeUsage, RuntimeResult, Notification}
use proteo_runtime.Codex.Publishing.{Metadata, RuntimeEvent, Invocation, Turn, new_turn}
use proteo_runtime.Codex.Runner.{events}
use proteo_runtime.Codex.Validation.{
  sum_all, sum_optional, sum, aggregate_usage, escape, error_path, take, take_text, feedback,
  new_policy, Checker, Schema, Validation, validate_output, pydantic_model, json_schema, valid,
  invalid,
}
use proteo_runtime.Codex.Attempts.{
  StructuredResult, Outcome, StructuredEvent, Handle, Run, Host, Attempts, new_attempts, change,
  receive, publish_next, logical_event, relayed_event, is_buffered, relay, interrupt_or_invalidate,
  stop_unsettled, drain, no_result, relayed, validated,
}

abbrev pub attempt_metadata : ℕ → Metadata → Metadata
attempt_metadata attempt rest = ("attempt", int_value false attempt) ∷ rest

path_items : List String → Items
path_items [] = nil
path_items (p ∷ ps) = cons (str_value p) (path_items ps)

unfoldable pub structured_error : ℕ → Exc
unfolding default_code
structured_error attempt = agent (record {
  class = structured_output;
  code = default_code structured_output;
  details = record no_details { attempts = counted attempt };
})

-- `TurnRun(...)` of a retry.
unfoldable pub retry_run : Host → Bool → ℕ → Run → Handle → Run
retry_run h include_raw attempt r handle = record {
  invocation = record {
    handle_id = handle.handle_id;
    invocation_id = h.uuid4 attempt;
    model = r.invocation.model;
    profile = r.invocation.profile;
    effort = r.invocation.effort;
    session_id = none;
    task_id = none;
    include_raw = include_raw;
    context_policy = r.invocation.context_policy;
    security_policy = r.invocation.security_policy;
    invocation_metadata = [];
    ephemeral = r.invocation.ephemeral;
    structured_output = true;
    event_sink = none;
    interrupt_outcome = handle.interrupt_outcome;
  };
  notifications = handle.notifications;
  ending = handle.ending;
  cleanup = false;
}

unfoldable pub start_retry :
    Host → Option (ℕ → String → Py Handle) → Bool → ℕ → List String → Run → Method Attempts Run
start_retry h none include_raw attempt paths r = throw (structured_error attempt)
start_retry h (some turn) include_raw attempt paths r = do
  handle ← lift (turn attempt (feedback paths))
  change (λ s. record s { registered = true })
  pure (retry_run h include_raw attempt r handle)

-- The end of the last attempt.
unfoldable pub exhaust : Host → ℕ → List String → RuntimeResult → Method Attempts (Unit {0})
unfolding path_items
exhaust h attempt paths result = do
  publish_next h (
      logical_event h RuntimeEventKind.invocation_failed
        (attempt_metadata attempt (
          ("reason", str_value "validation_exhausted")
          ∷ ("validation_paths", tuple_value (path_items paths))
          ∷ []))
        no_result result.turn_id)
  throw (structured_error attempt)

-- The attempt behind a turn whose output is not valid; `next` is the rest of the loop.
unfoldable pub try_again :
    Host
    → Bool
    → ℕ
    → List String
    → RuntimeResult
    → Run
    → (Run → Method Attempts (Unit {0}))
    → Method Attempts (Unit {0})
try_again h include_raw attempt paths result r next = do
  publish_next h (
      logical_event h RuntimeEventKind.retry_scheduled
        (attempt_metadata attempt (("next_attempt", int_value false (attempt + 1)) ∷ [])) no_result
        result.turn_id)
  retry ← start_retry h h.thread include_raw attempt paths r
  next retry

unfoldable pub structured_result :
    Bool → Value → List RuntimeUsage → RuntimeResult → StructuredResult
structured_result include_raw value usages result = record {
  value = value;
  usage = aggregate_usage usages;
  model = result.model;
  profile = result.profile;
  reasoning_effort = result.reasoning_effort;
  session_id = result.session_id;
  turn_id = result.turn_id;
  raw = (if include_raw then result.raw else none);
}

unfoldable pub on_validation :
    Host
    → ℕ
    → Bool
    → ℕ
    → RuntimeResult
    → Run
    → (Run → Method Attempts (Unit {0}))
    → Validation
    → Method Attempts (Unit {0})
unfolding path_items
on_validation h max_attempts include_raw attempt result r next (valid value) = λ s.
    publish_next h
      (logical_event h RuntimeEventKind.invocation_completed (attempt_metadata attempt [])
        (validated (structured_result include_raw value s.usages result)) none)
      s
on_validation h max_attempts include_raw attempt result r next (invalid paths) = do
  publish_next h (
      logical_event h RuntimeEventKind.validation_failed
        (attempt_metadata attempt (("paths", tuple_value (path_items paths)) ∷ [])) no_result
        result.turn_id)
  if leb max_attempts attempt
      then exhaust h attempt paths result
      else try_again h include_raw attempt paths result r next

-- An attempt behind its turn.
unfoldable pub on_turn :
    Host
    → Schema
    → ℕ
    → Bool
    → ℕ
    → Run
    → (Run → Method Attempts (Unit {0}))
    → Turn
    → Option RuntimeResult
    → Method Attempts (Unit {0})
on_turn h c max_attempts include_raw attempt r next turn none = do
  publish_next h (
      logical_event h RuntimeEventKind.invocation_failed
        (attempt_metadata attempt (("reason", str_value "missing_result") ∷ [])) no_result none)
  throw (structured_error attempt)
on_turn h c max_attempts include_raw attempt r next turn (some result) = do
  change (λ s. record s { usages = s.usages ++ result.usage ∷ [] })
  relay h attempt turn.yielded
  on_validation h max_attempts include_raw attempt result r next (validate_output c result.output)

-- `for attempt in range(1, max_attempts + 1)`: `left` attempts from `attempt` on.
unfoldable pub validation_loop : Host → Schema → ℕ → Bool → ℕ → ℕ → Run → Method Attempts (Unit {0})
validation_loop h c max_attempts include_raw zero attempt r = pure tt
validation_loop h c max_attempts include_raw (suc left) attempt r = do
  turn ← drain h r
  on_turn h c max_attempts include_raw attempt r
      (λ retry. validation_loop h c max_attempts include_raw left (attempt + 1) retry) turn
      turn.result

require_structured : Bool → Method Attempts (Unit {0})
require_structured true = pure tt
require_structured false = throw (error capability)

-- The `finally` of `_events`.
unfoldable pub leave : Attempts → Attempts
leave s = record s { registered = false; workspace_removed = true }

-- `run.event_sink = None`
unfoldable pub without_sink : Run → Run
without_sink r = record r { invocation = record r.invocation { event_sink = none } }

-- The body of the `try`, from the run that `_start_run` has made.
unfoldable pub try_attempts : Host → Schema → ℕ → Bool → Metadata → Run → Method Attempts (Unit {0})
try_attempts h c max_attempts include_raw metadata r = do
  publish_next h (
      logical_event h RuntimeEventKind.invocation_started
        (insert "max_attempts" (int_value false max_attempts) metadata) no_result none)
  validation_loop h c max_attempts include_raw max_attempts 1 (without_sink r)

unfoldable pub guard_attempts :
    Host → Schema → ℕ → Bool → Metadata → Run → Method Attempts (Unit {0})
guard_attempts h c max_attempts include_raw metadata r s =
    let (outcome, t) = try_attempts h c max_attempts include_raw metadata r s in (outcome, leave t)

-- `_events`, of what `effective_capabilities` and `_start_run` end in; `max_attempts` is from 1 to 5.
unfoldable pub structured_events :
    Host → Schema → ℕ → Bool → Metadata → Py Bool → Py Run → Method Attempts (Unit {0})
unfolding require_structured
structured_events h c max_attempts include_raw metadata capabilities start = do
  able ← lift capabilities
  require_structured able
  run ← lift start
  guard_attempts h c max_attempts include_raw metadata run
