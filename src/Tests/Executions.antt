-- ===== src/Tests/Executions.antt =====
-- The owner pipeline and the deduplication on a tool that fails once.
use proteo_runtime.Prelude.{
  eq_iff, ◌+◌, ◌≤◌, ◌≡◌, refl, ap, subst, ◌∙◌, true, false, none, some, List, [], ◌∷◌, string_eq,
  length, map,
}
use proteo_runtime.Prelude.Dict.{lookup}
use proteo_runtime.Prelude.Result.{ok}
use proteo_runtime.Core.Errors.{Py}
use proteo_runtime.Core.Events.{RuntimeEventKind}
use proteo_runtime.Core.Effects.{◌>>=◌}
use proteo_runtime.Tools.Values.{Value, str_value, has_other_key, key_text, freeze, thaw}
use proteo_runtime.Tools.Types.{
  return_error, ToolRequest, ToolResult, new_approval_request, new_tool_result, allows,
}
use proteo_runtime.Tools.Registry.{Binding}
use proteo_runtime.Tools.Executor.{
  ToolEvent, tool_event, emit, emit_terminal, emit_request, tool_error, requires_approval,
  request_approval, ask, approval, timeout_of, call_function, try_attempt, handle, recover,
  settle_attempt, run_attempt, schedule, next_round, attempts_loop, run_approved, run_decided,
  run_permitted, run_validated, run_arguments, run_bound, execute_owner,
}
use proteo_runtime.Tools.Executor.Guards.{CallsAuthorised, execute_owner_calls}
use proteo_runtime.Tools.Executor.Sequence.{EventsNumbered, execute_owner_events}
use proteo_runtime.Tools.Executor.Attempts.{attempts_granted, execute_owner_attempts}
use proteo_runtime.Tools.Executor.Terminals.{terminals, owed}
use proteo_runtime.Tools.Executor.Asking.{IsJson}
use proteo_runtime.Tools.Executor.Ending.{terminals-execute_owner}
use proteo_runtime.Tools.Dedup.{key_eq, Calls, no_calls, execute, claim, settle, end_invocation}
use proteo_runtime.Tools.Dedup.Once.{answered, execute_return_error}
use proteo_runtime.Tools.Dedup.Numbered.{IsNumbered-no_calls}
use proteo_runtime.Tools.Dedup.Later.{Later, at_once, then_claims, then_ends, execute_again}
use proteo_runtime.Tools.Dedup.Waiters.{
  System, Step, begins, finishes, here, next, idle, NoOrphan, Reach-NoOrphan,
}
use proteo_runtime.Tests.Samples.{note_binding, authority, request, new_state}

abbrev written : ToolResult
written = record {
  invocation_id = "turn-1";
  call_id = "call-1";
  tool_name = "write_note";
  success = true;
  output = str_value "written";
  error_code = none;
  attempts = 2;
  denied = false;
  timed_out = false;
}

kinds : List ToolEvent → List RuntimeEventKind
kinds = map (λ (e : ToolEvent). e.kind)

-- The second attempt answers.
owner_returns : (execute_owner authority request new_state).0 ≡ ok written
unfolding execute_owner run_bound run_arguments run_validated run_permitted run_decided run_approved
    attempts_loop next_round schedule run_attempt settle_attempt recover handle try_attempt
    call_function timeout_of approval request_approval new_approval_request ask requires_approval
    tool_error emit_request emit_terminal emit tool_event allows lookup freeze thaw new_tool_result
    ◌>>=◌ has_other_key key_text
owner_returns = refl

owner_kinds :
    kinds (execute_owner authority request new_state).1.events
    ≡ RuntimeEventKind.tool_requested ∷ RuntimeEventKind.tool_approval_requested
      ∷ RuntimeEventKind.tool_approval_resolved ∷ RuntimeEventKind.tool_started
      ∷ RuntimeEventKind.tool_retry_scheduled ∷ RuntimeEventKind.tool_started
      ∷ RuntimeEventKind.tool_completed ∷ []
unfolding execute_owner run_bound run_arguments run_validated run_permitted run_decided run_approved
    attempts_loop next_round schedule run_attempt settle_attempt recover handle try_attempt
    call_function timeout_of approval request_approval new_approval_request ask requires_approval
    tool_error emit_request emit_terminal emit tool_event allows lookup freeze thaw new_tool_result
    ◌>>=◌ kinds has_other_key key_text
owner_kinds = refl

execute_owner_calls_example :
    CallsAuthorised authority request new_state (execute_owner authority request new_state).1
execute_owner_calls_example = execute_owner_calls authority request new_state

execute_owner_events_example :
    EventsNumbered request new_state (execute_owner authority request new_state).1
execute_owner_events_example = execute_owner_events authority request new_state

execute_owner_attempts_example :
    length (execute_owner authority request new_state).1.calls
    ≤ length new_state.calls + attempts_granted authority (lookup request.name authority.snapshot)
execute_owner_attempts_example = execute_owner_attempts authority request new_state

shown_request :
    (v : Value)
    → some (thaw authority.render request.arguments) ≡ some v
    → IsJson authority note_binding v
unfolding thaw freeze has_other_key key_text
shown_request v found =
    let same : thaw authority.render request.arguments ≡ v = cc in
    subst (IsJson authority note_binding) same
      (record { dumped = _; shown = _; dump = refl; is_safe = refl })

all_shown :
    (b : Binding) (v : Value)
    → lookup request.name authority.snapshot ≡ some b
    → b.input_model.model_validate (thaw authority.render request.arguments) ≡ some v
    → IsJson authority b v
unfolding lookup
all_shown b v bound valid =
    let same : note_binding ≡ b = cc in
    subst
      (λ (b : Binding).
        b.input_model.model_validate (thaw authority.render request.arguments) ≡ some v
        → IsJson authority b v)
      same (shown_request v) valid

terminals-execute_owner_example :
    terminals (execute_owner authority request new_state).1.events
    ≡ terminals new_state.events + owed (execute_owner authority request new_state).0
terminals-execute_owner_example = terminals-execute_owner authority request new_state refl all_shown

no_key : lookup ("turn-1", "call-1") no_calls.table ≡ none
unfolding no_calls lookup
no_key = refl

first_outcome : (execute authority request new_state no_calls).0 ≡ some (ok written)
first_outcome =
    (execute_return_error authority request new_state no_calls refl no_key).0
    ∙ ap (λ (r : Py ToolResult). some (answered request r)) owner_returns

-- Another call of the same invocation claims its key, and another invocation ends.
abbrev other_request : ToolRequest
other_request = record request { call_id = "call-2" }

abbrev afterwards : Calls
afterwards =
    end_invocation "turn-2" (claim other_request (execute authority request new_state no_calls).2).1

later : Later request (execute authority request new_state no_calls).2 afterwards
later =
    then_ends "turn-2"
      (λ e. let same : false ≡ true = (eq_iff "turn-2" "turn-1").1 e in absurd (cc))
      (then_claims other_request at_once)

execute_again_example :
    execute authority request new_state afterwards ≡ (some (ok written), new_state, afterwards)
execute_again_example =
    execute_again authority request new_state new_state no_calls afterwards (ok written)
      IsNumbered-no_calls first_outcome refl later

abbrev one_owner : System
one_owner = record { calls = (claim request no_calls).1; running = (request, 0) ∷ [] }

abbrev owner_gone : System
owner_gone = record {
  calls = (settle return_error request 0 (ok written) one_owner.calls).1;
  running = [];
}

begun : Step return_error idle one_owner
unfolding claim no_calls lookup
begun = begins request idle

finished : Step return_error one_owner owner_gone
finished = finishes one_owner.calls [] [] request 0 (ok written) refl

Reach-NoOrphan_example : NoOrphan owner_gone
Reach-NoOrphan_example = Reach-NoOrphan (next (next here begun) finished)
