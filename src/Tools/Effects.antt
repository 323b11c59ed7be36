-- ===== src/Tools/Effects.antt =====
-- tools/__init__.py, `ToolExecutor`: the configuration of an executor, what a request changes, and the
-- steps of the owner pipeline that emit an event, ask for an approval or call a bound function. Clock
-- readings (`duration_ms`, `occurred_at`) are left out.
use proteo_runtime.Prelude.{
  ℕ, ◌+◌, String, Bool, true, false, Option, none, some, List, [], ◌∷◌, ◌++◌, string_eq,
}
use proteo_runtime.Prelude.Result.{ok, raise}
use proteo_runtime.Core.Errors.{
  Py, Exc, AttemptsEntry, agent, cancelled_error, ErrorClass, default_code,
}
use proteo_runtime.Core.Events.{RuntimeEventKind}
use proteo_runtime.Core.Effects.{Method, pure, lift, ◌>>=◌}
use proteo_runtime.Tools.Values.{Value, Render, thaw}
use proteo_runtime.Tools.Types.{
  SideEffect, none_effect, write, destructive, always, for_side_effects, ApprovalDecision, deny,
  ToolFailurePolicy, ToolDefinition, ToolRequest, ApprovalRequest, new_approval_request,
}
use proteo_runtime.Tools.Registry.{Call, Binding, Registry}

-- What the wait for an approval handler ends in.
pub data Answer : Type 0 where
  decided : ApprovalDecision → Answer
  not_a_decision handler_timeout handler_raised handler_cancelled caller_cancelled : Answer

pub data Payload : Type 0 where
  no_payload : Payload
  arguments : Value → Payload
  decision : ApprovalDecision → Payload
  next_attempt : ℕ → Payload
  completed : Value → Value → Payload

-- A neutral tool event; `event_id` is the invocation's id and the sequence number.
pub record ToolEvent : Type 0 where
  pub kind : RuntimeEventKind
  pub sequence : ℕ
  pub invocation_id : String
  pub session_id : Option String
  pub task_id : Option String
  pub turn_id : Option String
  pub call_id : String
  pub tool_name : String
  pub permission : String
  pub side_effect : SideEffect
  pub attempt : ℕ
  pub success : Option Bool
  pub error_code : Option String
  pub denied : Bool
  pub timed_out : Bool
  pub payload : Payload

-- The configuration of an executor. The handler and the sink belong to the host: the handler answers
-- by the approvals asked so far, and the sink may raise on the events emitted so far.
pub record Authority : Type 0 where
  pub snapshot : Registry
  pub permission_policy : List String
  pub approval_handler : Option (List ApprovalRequest → Answer)
  pub max_attempts : ℕ
  pub failure_policy : ToolFailurePolicy
  pub timeout_seconds : ℕ
  pub approval_timeout_seconds : ℕ
  pub event_sink : Option (List ToolEvent → Option Exc)
  pub render : Render

-- What a request changes: the events of the executor, the calls made of bound functions and the
-- approvals asked of the handler.
pub record State : Type 0 where
  pub sequence : ℕ
  pub events : List ToolEvent
  pub calls : List Call
  pub asked : List ApprovalRequest

-- The optional arguments of `_emit`.
pub record Outcome : Type 0 where
  pub success : Option Bool
  pub error_code : Option String
  pub denied : Bool
  pub timed_out : Bool

abbrev pub no_outcome : Outcome
no_outcome = record { success = none; error_code = none; denied = false; timed_out = false }

described_name : ToolRequest → Option ToolDefinition → String
described_name q none = q.name
described_name q (some d) = d.name

described_permission : Option ToolDefinition → String
described_permission none = ""
described_permission (some d) = d.permission

described_effect : Option ToolDefinition → SideEffect
described_effect none = none_effect
described_effect (some d) = d.side_effect

unfoldable pub tool_event :
    ℕ → RuntimeEventKind → ToolRequest → Option ToolDefinition → ℕ → Outcome → Payload → ToolEvent
unfolding described_name described_permission described_effect
tool_event n kind q d attempt o payload = record {
  kind = kind;
  sequence = n;
  invocation_id = q.invocation_id;
  session_id = q.session_id;
  task_id = q.task_id;
  turn_id = q.turn_id;
  call_id = q.call_id;
  tool_name = described_name q d;
  permission = described_permission d;
  side_effect = described_effect d;
  attempt = attempt;
  success = o.success;
  error_code = o.error_code;
  denied = o.denied;
  timed_out = o.timed_out;
  payload = payload;
}

-- `await self.event_sink(event)`
notify : Option (List ToolEvent → Option Exc) → List ToolEvent → Py (Unit {0})
notify none events = ok tt
notify (some sink) events = elim (sink events) [ none ↦ ok tt | some e ↦ raise e ]

-- `_emit`
unfoldable pub emit :
    Authority
    → RuntimeEventKind
    → ToolRequest
    → Option ToolDefinition
    → ℕ
    → Outcome
    → Payload
    → Method State (Unit {0})
unfolding notify
emit a kind q d attempt o payload s =
    let events = s.events ++ tool_event (s.sequence + 1) kind q d attempt o payload ∷ [] in
    (notify a.event_sink events, record s { sequence = s.sequence + 1; events = events })

is_completed : RuntimeEventKind → Bool
is_completed RuntimeEventKind.tool_completed = true
is_completed _ = false

-- `_emit_terminal`
unfoldable pub emit_terminal :
    Authority
    → ToolRequest
    → Option ToolDefinition
    → RuntimeEventKind
    → ℕ
    → String
    → Bool
    → Bool
    → Method State (Unit {0})
unfolding is_completed
emit_terminal a q d kind attempt code denied timed_out =
    emit a kind q d attempt
      (record {
        success = some (is_completed kind);
        error_code = some code;
        denied = denied;
        timed_out = timed_out;
      })
      no_payload

-- `_emit_request`
unfoldable pub emit_request :
    Authority → ToolRequest → Option ToolDefinition → Method State (Unit {0})
emit_request a q d =
    emit a RuntimeEventKind.tool_requested q d 0 no_outcome (arguments (thaw a.render q.arguments))

unfoldable pub tool_error : ErrorClass → AttemptsEntry → Bool → Exc
unfolding default_code
tool_error c attempts timed_out = agent (record {
  class = c;
  code = default_code c;
  details = record { attempts = attempts; timed_out = timed_out; path = none };
})

has_side_effects : SideEffect → Bool
has_side_effects write = true
has_side_effects destructive = true
has_side_effects _ = false

-- `_requires_approval`
unfoldable pub requires_approval : ToolDefinition → Bool
unfolding has_side_effects
requires_approval d = elim d.approval [
  | always ↦ true
  | for_side_effects ↦ has_side_effects d.side_effect
  | _ ↦ false
]

-- How `_approval` reads the end of the wait: everything but a decision, or the cancellation of the
-- caller, is a denial.
unfoldable pub read_answer : Answer → Py ApprovalDecision
read_answer (decided d) = ok d
read_answer caller_cancelled = raise cancelled_error
read_answer _ = ok deny

-- The wait for the handler.
unfoldable pub ask :
    ApprovalRequest → (List ApprovalRequest → Answer) → Method State ApprovalDecision
unfolding read_answer
ask r handler s =
    let asked = s.asked ++ r ∷ [] in (read_answer (handler asked), record s { asked = asked })

-- The approval request is built before the guarded wait: what its construction raises goes on.
unfoldable pub request_approval :
    Authority
    → ToolRequest
    → Binding
    → Value
    → Option (List ApprovalRequest → Answer)
    → Method State ApprovalDecision
request_approval a q b validated none = pure deny
request_approval a q b validated (some handler) = do
  dumped ← lift (b.input_model.model_dump validated)
  r ← lift (
      new_approval_request a.render (record {
        invocation_id = q.invocation_id;
        call_id = q.call_id;
        tool_name = b.definition.name;
        permission = b.definition.permission;
        side_effect = b.definition.side_effect;
        arguments = dumped;
      }))
  ask r handler

-- `_approval`
unfoldable pub approval : Authority → ToolRequest → Binding → Value → Method State ApprovalDecision
unfolding request_approval
approval a q b validated = request_approval a q b validated a.approval_handler

-- `definition.timeout_seconds or self.timeout_seconds`; a definition's timeout is never 0.
unfoldable pub timeout_of : Authority → ToolDefinition → ℕ
timeout_of a d = elim d.timeout_seconds [ none ↦ a.timeout_seconds | some t ↦ t ]

-- `asyncio.wait_for(binding.function(...), timeout=...)`
unfoldable pub call_function : Authority → Binding → Value → Method State Value
call_function a b validated s =
    let call : Call = record {
      tool = b.definition.name;
      arguments = validated;
      timeout = timeout_of a b.definition;
    } in
    (b.function s.calls call, record s { calls = s.calls ++ call ∷ [] })
