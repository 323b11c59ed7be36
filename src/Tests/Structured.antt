-- ===== src/Tests/Structured.antt =====
-- The theorems on structured output, at a schema that rejects the first answer of the provider.
use proteo_runtime.Prelude.{
  ◌≤◌, String, ◌≡◌, refl, true, none, some, List, [], ◌∷◌, ◌==◌, string_eq, arith, if◌then◌else◌,
}
use proteo_runtime.Prelude.Result.{ok}
use proteo_runtime.Core.Effects.{◌>>=◌, pure, lift, throw}
use proteo_runtime.Prelude.Text.{is_empty, concat}
use proteo_runtime.Tools.Values.{Value, str_value}
use proteo_runtime.Codex.Turns.{
  RuntimeResult, agent_message_delta, turn_completed, status_of, output_text, message_texts,
}
use proteo_runtime.Codex.Publishing.{
  new_turn, announce, emit_event, publish, accept, send, yield_event, retain, turn_event, Turn,
}
use proteo_runtime.Codex.Runner.{
  events, delta_text, try_stream, recover_stream, run_stream, stream_loop, on_notification, modify,
  on_completed, settle_status, conclude, release, require_terminal, adopted, turn_result,
  started_metadata,
}
use proteo_runtime.Codex.Validation.{valid, Schema, json_schema, validate_output, error_path}
use proteo_runtime.Codex.Attempts.{
  Handle, Run, Host, Attempts, new_attempts, drain, stop_unsettled, change, publish_next, receive,
  logical_event, relay, relayed_event, is_buffered, StructuredEvent, StructuredResult,
}
use proteo_runtime.Codex.Structured.{
  guard_attempts, without_sink, try_attempts, validation_loop, on_turn, on_validation, try_again,
  start_retry, retry_run, structured_result, leave,
}
use proteo_runtime.Codex.Structured.Numbering.{Numbered, guard_attempts-Numbered}
use proteo_runtime.Codex.Structured.Bounds.{guard_attempts-turns}
use proteo_runtime.Codex.Structured.Tally.{Completed}
use proteo_runtime.Codex.Structured.Completion.{guard_attempts-Completed}
use proteo_runtime.Codex.Structured.Progress.{guard_attempts-returns}
use proteo_runtime.Tests.Turns.{turn, notifications, invocation}

abbrev is_forty_two : Value → List (List String)
is_forty_two (str_value s) = if s == "42" then [] else ("answer" ∷ []) ∷ []
is_forty_two _ = ("answer" ∷ []) ∷ []

abbrev schema : Schema
schema = record { loads = λ s. some (str_value s); checker = json_schema is_forty_two }

abbrev corrected : Handle
corrected = record {
  handle_id = some "turn-2";
  notifications = agent_message_delta (some "42") ∷ turn_completed turn ∷ [];
  ending = ok tt;
  interrupt_outcome = ok tt;
}

abbrev echo : List StructuredEvent → StructuredEvent → StructuredEvent
echo [] e = e
echo (x ∷ xs) e = echo xs x

abbrev blank : StructuredEvent
blank = record {
  kind = proteo_runtime.Core.Events.RuntimeEventKind.cancelled;
  sequence = 0;
  invocation_id = "";
  session_id = none;
  task_id = none;
  turn_id = none;
  metadata = [];
  payload = [];
  result = proteo_runtime.Codex.Attempts.no_result;
}

abbrev host : Host
host = record {
  dispatch = λ sent. ok (echo sent blank);
  uuid4 = λ n. "logical";
  thread = some (λ attempt prompt. ok corrected);
  close = ok tt;
}

abbrev first : Run
first = record {
  invocation = invocation;
  notifications = notifications;
  ending = ok tt;
  cleanup = true;
}

guard_attempts-Numbered_example :
    Numbered "logical" new_attempts (guard_attempts host schema 2 true [] first new_attempts).1
guard_attempts-Numbered_example = guard_attempts-Numbered host schema 2 true [] first

guard_attempts-turns_example : (guard_attempts host schema 2 true [] first new_attempts).1.turns ≤ 2
guard_attempts-turns_example = guard_attempts-turns host schema 2 true [] first

first_returns : (guard_attempts host schema 2 true [] first new_attempts).0 ≡ ok tt
unfolding guard_attempts try_attempts without_sink publish_next receive logical_event
    validation_loop drain change stop_unsettled on_turn relay relayed_event is_buffered
    on_validation try_again start_retry retry_run validate_output error_path structured_result leave
    ◌>>=◌ pure lift throw events try_stream recover_stream run_stream announce emit_event publish
    accept send yield_event stream_loop on_notification modify on_completed settle_status status_of
    is_empty concat output_text message_texts conclude release require_terminal retain turn_event
    adopted turn_result started_metadata new_turn delta_text
first_returns = refl

guard_attempts-Completed_example :
    Completed schema new_attempts (guard_attempts host schema 2 true [] first new_attempts).1
guard_attempts-Completed_example =
    guard_attempts-Completed schema host 2 true [] first (omega arith) first_returns

-- The second answer is accepted.
first_turns : (guard_attempts host schema 2 true [] first new_attempts).1.turns ≡ 2
unfolding guard_attempts try_attempts without_sink publish_next receive logical_event
    validation_loop drain change stop_unsettled on_turn relay relayed_event is_buffered
    on_validation try_again start_retry retry_run validate_output error_path structured_result leave
    ◌>>=◌ pure lift throw events try_stream recover_stream run_stream announce emit_event publish
    accept send yield_event stream_loop on_notification modify on_completed settle_status status_of
    is_empty concat output_text message_texts conclude release require_terminal retain turn_event
    adopted turn_result started_metadata new_turn delta_text
first_turns = refl

-- A run whose first answer is accepted.
abbrev answered : Run
answered = record first { notifications = corrected.notifications }

abbrev answered_turn : Turn
answered_turn =
    let q = without_sink answered in
    (events q.invocation q.notifications q.ending (new_turn q.invocation q.cleanup)).1

abbrev answer : RuntimeResult
answer =
    turn_result invocation
      (record (new_turn invocation true) { deltas = "42" ∷ []; turn_id = "turn-0" }) turn

answered-returns :
    (let q = without_sink answered in
      (events q.invocation q.notifications q.ending (new_turn q.invocation q.cleanup)).0 ≡ ok tt)
unfolding without_sink ◌>>=◌ pure lift throw events try_stream recover_stream run_stream announce
    emit_event publish accept send yield_event stream_loop on_notification modify on_completed
    settle_status status_of is_empty concat output_text message_texts conclude release
    require_terminal retain turn_event adopted turn_result started_metadata new_turn delta_text
answered-returns = refl

answered-result :
    (let q = without_sink answered in
      (events q.invocation q.notifications q.ending (new_turn q.invocation q.cleanup)).1.result
      ≡ some answer)
unfolding without_sink ◌>>=◌ pure lift throw events try_stream recover_stream run_stream announce
    emit_event publish accept send yield_event stream_loop on_notification modify on_completed
    settle_status status_of is_empty concat output_text message_texts conclude release
    require_terminal retain turn_event adopted turn_result started_metadata new_turn delta_text
answered-result = refl

answer-valid : validate_output schema answer.output ≡ valid (str_value "42")
unfolding validate_output turn_result output_text message_texts concat is_empty new_turn
answer-valid = refl

guard_attempts-returns_example :
    ((guard_attempts host schema 2 true [] answered new_attempts).0 ≡ ok tt)
    × Completed schema new_attempts (guard_attempts host schema 2 true [] answered new_attempts).1
guard_attempts-returns_example =
    guard_attempts-returns host (λ sent. (echo sent blank, refl)) schema 1 true [] answered answer
      (str_value "42") answered-returns answered-result answer-valid
