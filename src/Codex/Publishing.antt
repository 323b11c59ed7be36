-- ===== src/Codex/Publishing.antt =====
-- providers/codex/_runner.py, `TurnRun`: the state of a run, and its steps that number, publish and yield
-- an event. The identity of the runtime and the time of an event are left out.
use proteo_runtime.Prelude.{
  ℕ, ◌+◌, String, Bool, false, Option, none, some, List, [], ◌∷◌, ◌++◌, string_eq,
}
use proteo_runtime.Prelude.Dict.{Dict}
use proteo_runtime.Prelude.Result.{ok, raise}
use proteo_runtime.Core.Errors.{Py, Exc}
use proteo_runtime.Core.Events.{RuntimeEventKind}
use proteo_runtime.Core.Effects.{Method, ◌>>=◌}
use proteo_runtime.Tools.Values.{Value}
use proteo_runtime.Codex.Turns.{SdkUsage, Item, RuntimeResult, id_of}

abbrev pub Metadata : Type 0
Metadata = Dict String Value

pub record RuntimeEvent : Type 0 where
  pub kind : RuntimeEventKind
  pub sequence : ℕ
  pub invocation_id : String
  pub session_id : Option String
  pub task_id : Option String
  pub turn_id : String
  pub metadata : Metadata
  pub payload : Metadata
  pub result : Option RuntimeResult

-- What a run is made with. The sink may raise, and may answer with another event, by all events sent so
-- far; `interrupt_outcome` is what the handle's `interrupt` ends in.
pub record Invocation : Type 0 where
  pub handle_id : Option String
  pub invocation_id : String
  pub model : String
  pub profile : String
  pub effort : String
  pub session_id : Option String
  pub task_id : Option String
  pub include_raw : Bool
  pub context_policy : Option String
  pub security_policy : Option String
  pub invocation_metadata : Metadata
  pub ephemeral : Bool
  pub structured_output : Bool
  pub event_sink : Option (List RuntimeEvent → Py RuntimeEvent)
  pub interrupt_outcome : Py (Unit {0})

-- The fields that a run changes; `published` is what it has sent to the sink, `yielded` what its consumer
-- has seen, `cleanup` whether the callback is still to run, and `cleanups` how often it has run.
pub record Turn : Type 0 where
  pub turn_id : String
  pub deltas : List String
  pub items : List Item
  pub usage : Option SdkUsage
  pub result : Option RuntimeResult
  pub terminal_status : Option String
  pub terminal_error : Option Exc
  pub finished : Bool
  pub sequence : ℕ
  pub published : List RuntimeEvent
  pub yielded : List RuntimeEvent
  pub interrupts : ℕ
  pub cleanup : Bool
  pub cleanups : ℕ

unfoldable pub new_turn : Invocation → Bool → Turn
unfolding id_of
new_turn i cleanup = record {
  turn_id = id_of none i.handle_id "";
  deltas = [];
  items = [];
  usage = none;
  result = none;
  terminal_status = none;
  terminal_error = none;
  finished = false;
  sequence = 0;
  published = [];
  yielded = [];
  interrupts = 0;
  cleanup = cleanup;
  cleanups = 0;
}

-- `_event`, with the next number
unfoldable pub turn_event :
    Invocation → Turn → RuntimeEventKind → Metadata → Metadata → Option RuntimeResult → RuntimeEvent
turn_event i s kind metadata payload result = record {
  kind = kind;
  sequence = s.sequence;
  invocation_id = i.invocation_id;
  session_id = i.session_id;
  task_id = i.task_id;
  turn_id = s.turn_id;
  metadata = metadata;
  payload = payload;
  result = result;
}

-- `_emit`
unfoldable pub emit_event :
    Invocation
    → RuntimeEventKind
    → Metadata
    → Metadata
    → Option RuntimeResult
    → Method Turn RuntimeEvent
emit_event i kind metadata payload result s =
    (ok (turn_event i s kind metadata payload result), record s { sequence = s.sequence + 1 })

unfoldable pub retain : Option RuntimeResult → Option RuntimeResult → Option RuntimeResult
retain none old = old
retain (some r) old = some r

unfoldable pub send :
    Option (List RuntimeEvent → Py RuntimeEvent)
    → List RuntimeEvent
    → RuntimeEvent
    → Py RuntimeEvent
send none sent e = ok e
send (some sink) sent e = sink sent

unfoldable pub accept : Py RuntimeEvent → Method Turn RuntimeEvent
unfolding retain
accept (ok e) s = (ok e, record s { result = retain e.result s.result })
accept (raise x) s = (raise x, s)

-- `_publish`
unfoldable pub publish : Invocation → RuntimeEvent → Method Turn RuntimeEvent
publish i e s =
    let sent = s.published ++ e ∷ [] in
    accept (send i.event_sink sent e) (record s { published = sent })

unfoldable pub yield_event : RuntimeEvent → Method Turn (Unit {0})
yield_event e s = (ok tt, record s { yielded = s.yielded ++ e ∷ [] })

-- `yield await self._publish(self._emit(...))`
unfoldable pub announce :
    Invocation
    → RuntimeEventKind
    → Metadata
    → Metadata
    → Option RuntimeResult
    → Method Turn (Unit {0})
announce i kind metadata payload result = do
  e ← emit_event i kind metadata payload result
  p ← publish i e
  yield_event p
