-- ===== src/Codex/Attempts.antt =====
-- providers/codex/_structured.py, `_events`: the state of the attempts, the events that they publish, and a
-- drained turn.
use Prim.Native.String.{String}
use proteo_runtime.Prelude.{
  ℕ, ◌+◌, Bool, true, false, Option, none, some, List, [], ◌∷◌, ◌++◌, string_eq, if◌then◌else◌,
}
use proteo_runtime.Prelude.Dict.{Dict, insert}
use proteo_runtime.Prelude.Result.{ok, raise}
use proteo_runtime.Core.Errors.{Py, cancelled_error}
use proteo_runtime.Core.Events.{RuntimeEventKind}
use proteo_runtime.Core.Effects.{Method, pure, throw, lift, ◌>>◌}
use proteo_runtime.Tools.Values.{Value, int_value}
use proteo_runtime.Codex.Turns.{RuntimeUsage, RuntimeResult, Notification}
use proteo_runtime.Codex.Publishing.{Metadata, RuntimeEvent, Invocation, Turn, new_turn}
use proteo_runtime.Codex.Runner.{events}

-- A `RuntimeResult` with a validated value.
pub record StructuredResult : Type 0 where
  pub value : Value
  pub usage : RuntimeUsage
  pub model : String
  pub profile : String
  pub reasoning_effort : String
  pub session_id : Option String
  pub turn_id : Option String
  pub raw : Option (Dict String String)

-- The result on an event: that of a turn stays on a relayed event.
pub data Outcome : Type 0 where
  no_result : Outcome
  relayed : RuntimeResult → Outcome
  validated : StructuredResult → Outcome

pub record StructuredEvent : Type 0 where
  pub kind : RuntimeEventKind
  pub sequence : ℕ
  pub invocation_id : String
  pub session_id : Option String
  pub task_id : Option String
  pub turn_id : Option String
  pub metadata : Metadata
  pub payload : Metadata
  pub result : Outcome

-- What `thread.turn` returns: a handle, by its stream and what its `interrupt` ends in.
pub record Handle : Type 0 where
  pub handle_id : Option String
  pub notifications : List Notification
  pub ending : Py (Unit {0})
  pub interrupt_outcome : Py (Unit {0})

-- A run over its handle, and whether it has a cleanup.
pub record Run : Type 0 where
  pub invocation : Invocation
  pub notifications : List Notification
  pub ending : Py (Unit {0})
  pub cleanup : Bool

-- What belongs to the runtime and the SDK: the shared bus by the events sent so far, the identifiers of
-- `uuid4`, the turns of a reusable thread, by the attempt and the feedback, with SDK errors mapped, and
-- what the closing of the runtime ends in.
pub record Host : Type 0 where
  pub dispatch : List StructuredEvent → Py StructuredEvent
  pub uuid4 : ℕ → String
  pub thread : Option (ℕ → String → Py Handle)
  pub close : Py (Unit {0})

-- The locals of `_events` and what it does to the runtime; `turns` counts the runs that are drained,
-- `drained` holds what they have become, `registered` is whether the current run is registered.
pub record Attempts : Type 0 where
  pub sequence : ℕ
  pub published : List StructuredEvent
  pub yielded : List StructuredEvent
  pub usages : List RuntimeUsage
  pub turns : ℕ
  pub drained : List Turn
  pub active : Bool
  pub registered : Bool
  pub runtime_closed : Bool
  pub workspace_removed : Bool

abbrev pub new_attempts : Attempts
new_attempts = record {
  sequence = 0;
  published = [];
  yielded = [];
  usages = [];
  turns = 0;
  drained = [];
  active = false;
  registered = true;
  runtime_closed = false;
  workspace_removed = false;
}

unfoldable pub change : (Attempts → Attempts) → Method Attempts (Unit {0})
change f s = (ok tt, f s)

unfoldable pub receive : Py StructuredEvent → Method Attempts (Unit {0})
receive (ok e) s = (ok tt, record s { yielded = s.yielded ++ e ∷ [] })
receive (raise x) s = (raise x, s)

-- `yield await self._base.runtime._dispatch(event)` and `sequence += 1`, a local that a raise ends.
unfoldable pub publish_next : Host → (ℕ → StructuredEvent) → Method Attempts (Unit {0})
unfolding receive
publish_next h event s =
    let sent = s.published ++ event s.sequence ∷ [] in
    receive (h.dispatch sent) (record s { sequence = s.sequence + 1; published = sent })

-- `_event`
unfoldable pub logical_event :
    Host → RuntimeEventKind → Metadata → Outcome → Option String → ℕ → StructuredEvent
logical_event h kind metadata result turn n = record {
  kind = kind;
  sequence = n;
  invocation_id = h.uuid4 0;
  session_id = none;
  task_id = none;
  turn_id = turn;
  metadata = metadata;
  payload = [];
  result = result;
}

outcome_of : Option RuntimeResult → Outcome
outcome_of none = no_result
outcome_of (some r) = relayed r

-- `replace(event, ...)`
unfoldable pub relayed_event : Host → ℕ → RuntimeEvent → ℕ → StructuredEvent
unfolding outcome_of
relayed_event h attempt e n = record {
  kind = e.kind;
  sequence = n;
  invocation_id = h.uuid4 0;
  session_id = e.session_id;
  task_id = e.task_id;
  turn_id = some e.turn_id;
  metadata = insert "attempt" (int_value false attempt) e.metadata;
  payload = e.payload;
  result = outcome_of e.result;
}

unfoldable pub is_buffered : RuntimeEventKind → Bool
is_buffered RuntimeEventKind.output_text_delta = true
is_buffered RuntimeEventKind.invocation_completed = true
is_buffered RuntimeEventKind.invocation_started = true
is_buffered _ = false

-- The events of a turn that are passed on.
unfoldable pub relay : Host → ℕ → List RuntimeEvent → Method Attempts (Unit {0})
relay h attempt [] = pure tt
relay h attempt (e ∷ es) =
    let rest = relay h attempt es in
    if is_buffered e.kind then rest else publish_next h (relayed_event h attempt e) >> rest

-- `_interrupt_or_invalidate`
unfoldable pub interrupt_or_invalidate : Host → Py (Unit {0}) → Method Attempts (Unit {0})
interrupt_or_invalidate h (ok u) = pure tt
interrupt_or_invalidate h (raise cancelled_error) = throw cancelled_error
interrupt_or_invalidate h (raise e) = do
  change (λ s. record s { runtime_closed = true })
  lift h.close

unfoldable pub stop_unsettled : Host → Run → Option String → Method Attempts (Unit {0})
stop_unsettled h r none = interrupt_or_invalidate h r.invocation.interrupt_outcome
stop_unsettled h r (some status) = pure tt

-- The run is drained and its events are kept; the `finally` stops a run without a terminal status.
unfoldable pub drain : Host → Run → Method Attempts Turn
drain h r =
    let (outcome, turn) =
      events r.invocation r.notifications r.ending (new_turn r.invocation r.cleanup) in
    (do
      change
          (λ s. record s { active = true; turns = s.turns + 1; drained = s.drained ++ turn ∷ [] })
      stop_unsettled h r turn.terminal_status
      change (λ s. record s { active = false; registered = false })
      lift outcome
      pure turn)
