-- ===== src/Tests/Turns.antt =====
-- The theorems on turns, at a turn of two deltas, with and without a sink.
use proteo_runtime.Prelude.{
  ◌≡◌, refl, true, false, none, some, List, [], ◌∷◌, map, Option, String, string_eq,
}
use proteo_runtime.Prelude.Result.{ok, raise}
use proteo_runtime.Core.Errors.{error, observability}
use proteo_runtime.Codex.Turns.{
  Notification, turn_started, agent_message_delta, turn_completed, SdkTurn, status_of,
}
use proteo_runtime.Codex.Publishing.{
  Invocation, Turn, new_turn, announce, emit_event, publish, accept, send, yield_event, retain,
  turn_event,
}
use proteo_runtime.Core.Effects.{◌>>=◌, pure, lift, throw}
use proteo_runtime.Prelude.Text.{is_empty, concat}
use proteo_runtime.Codex.Runner.Output.{Outputs, deltas_then, events-Outputs}
use proteo_runtime.Codex.Runner.{
  events, delta_text, try_stream, recover_stream, run_stream, stream_loop, on_notification, modify,
  on_completed, settle_status, conclude, release, require_terminal, adopted, turn_result,
  started_metadata,
}
use proteo_runtime.Codex.Runner.Sequence.{Stamped, events-Stamped}
use proteo_runtime.Codex.Runner.Results.{Settled, events-Settled}

abbrev pub turn : SdkTurn
turn = record { id = some "turn-1"; status = some "completed"; items = []; duration_ms = some 7 }

abbrev pub notifications : List Notification
notifications =
    turn_started (some "turn-1")
    ∷ agent_message_delta (some "Hel")
    ∷ agent_message_delta (some "lo")
    ∷ turn_completed turn
    ∷ []

abbrev pub invocation : Invocation
invocation = record {
  handle_id = some "turn-0";
  invocation_id = "inv-1";
  model = "gpt";
  profile = "brain";
  effort = "low";
  session_id = none;
  task_id = none;
  include_raw = true;
  context_policy = some "external";
  security_policy = some "isolated";
  invocation_metadata = [];
  ephemeral = true;
  structured_output = false;
  event_sink = none;
  interrupt_outcome = ok tt;
}

-- A sink that fails on every event.
abbrev failing : Invocation
failing = record invocation { event_sink = some (λ sent. raise (error observability)) }

abbrev final : Turn
final = (events invocation notifications (ok tt) (new_turn invocation true)).1

invocation_returns : (events invocation notifications (ok tt) (new_turn invocation true)).0 ≡ ok tt
unfolding events ◌>>=◌ try_stream recover_stream run_stream announce emit_event publish accept send
    yield_event stream_loop on_notification modify on_completed settle_status status_of is_empty
    conclude release require_terminal pure lift throw retain turn_event adopted turn_result
    started_metadata new_turn
invocation_returns = refl

events-Settled_example : Settled final
events-Settled_example = events-Settled invocation notifications (ok tt) true invocation_returns

events-Stamped_example :
    Stamped failing
      (new_turn failing true)
      (events failing notifications (ok tt) (new_turn failing true)).1
events-Stamped_example = events-Stamped failing notifications (ok tt) (new_turn failing true)

abbrev spoken : List (Option String)
spoken = some "Hel" ∷ none ∷ some "lo" ∷ []

turn_completes : status_of turn ≡ "completed"
unfolding status_of is_empty
turn_completes = refl

events-Outputs_example :
    Outputs
      (concat (map delta_text spoken))
      (events invocation (deltas_then spoken turn) (ok tt) (new_turn invocation true))
events-Outputs_example = events-Outputs invocation refl turn refl turn_completes spoken true
