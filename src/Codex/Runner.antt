-- ===== src/Codex/Runner.antt =====
-- providers/codex/_runner.py, `TurnRun.events`: one turn of the SDK as a stream of neutral events, for a
-- consumer that drains the stream.
pub mod Sequence
pub mod Ending
pub mod Streams
pub mod Terminal
pub mod Returned
pub mod Results
pub mod Output
use proteo_runtime.Prelude.{
  ℕ, ◌+◌, String, true, false, Option, none, some, List, [], ◌∷◌, ◌++◌, ◌==◌, string_eq,
  if◌then◌else◌,
}
use proteo_runtime.Prelude.Dict.{insert}
use proteo_runtime.Prelude.Result.{ok, raise}
use proteo_runtime.Core.Errors.{
  Py, Exc, agent, cancelled_error, error, interrupted, runtime_unavailable, transport,
}
use proteo_runtime.Core.Events.{RuntimeEventKind}
use proteo_runtime.Core.Effects.{Method, pure, throw, lift, ◌>>=◌, ◌>>◌}
use proteo_runtime.Tools.Values.{
  Value, none_value, bool_value, int_value, str_value, dict_value, entry, str_key, end,
}
use proteo_runtime.Codex.Turns.{
  SdkUsage, usage_from_sdk, Item, SdkTurn, Notification, turn_started, agent_message_delta,
  item_completed, token_usage_updated, turn_completed, other_method, RuntimeResult, status_of,
  output_text, id_of, or_none,
}
use proteo_runtime.Codex.Publishing.{Metadata, Invocation, Turn, emit_event, publish, announce}

text_value : Option String → Value
text_value none = none_value
text_value (some s) = str_value s

number_value : Option ℕ → Value
number_value none = none_value
number_value (some n) = int_value false n

-- `{**dict(self.invocation_metadata), "model": self.model, ...}`
unfoldable pub started_metadata : Invocation → Metadata
unfolding text_value
started_metadata i = insert "structured_output" (bool_value i.structured_output) (
    insert "ephemeral" (bool_value i.ephemeral) (
      insert "security_policy" (text_value i.security_policy) (
        insert "context_policy" (text_value i.context_policy) (
          insert "reasoning_effort" (str_value i.effort) (
            insert "profile" (str_value i.profile)
              (insert "model" (str_value i.model) i.invocation_metadata))))))

-- `_usage_metadata`
unfoldable pub usage_metadata : Option SdkUsage → Value
unfolding number_value usage_from_sdk
usage_metadata u =
    let r = usage_from_sdk u none in
    dict_value (
      entry (str_key "input_tokens") (number_value r.input_tokens) (
        entry (str_key "cached_input_tokens") (number_value r.cached_input_tokens) (
          entry (str_key "output_tokens") (number_value r.output_tokens) (
            entry (str_key "reasoning_tokens") (number_value r.reasoning_tokens) (
              entry (str_key "total_tokens") (number_value r.total_tokens)
                (entry (str_key "duration_ms") (number_value r.duration_ms) end))))))

status_text : Option String → String
status_text none = "None"
status_text (some s) = s

-- `_result`, of a turn that the stream has completed
unfoldable pub turn_result : Invocation → Turn → SdkTurn → RuntimeResult
unfolding status_text
turn_result i s t = record {
  output = output_text s.items s.deltas;
  usage = usage_from_sdk s.usage t.duration_ms;
  model = i.model;
  profile = i.profile;
  reasoning_effort = i.effort;
  session_id = i.session_id;
  turn_id = or_none (id_of t.id i.handle_id "");
  raw =
      (if i.include_raw
        then some (
            ("id", id_of t.id i.handle_id "None")
            ∷ ("status", status_text t.status)
            ∷ ("type", "codex_turn")
            ∷ [])
        else none);
  task_id = i.task_id;
}

unfoldable pub modify : (Turn → Turn) → Method Turn (Unit {0})
modify f s = (ok tt, f s)

abbrev pub status_metadata : String → Metadata
status_metadata status = ("status", str_value status) ∷ []

abbrev pub reason_metadata : String → Metadata
reason_metadata reason = ("reason", str_value reason) ∷ []

-- The branches on the status of a completed turn: an outcome, and the event of the turn.
unfoldable pub settle_status : Invocation → SdkTurn → String → Method Turn (Unit {0})
settle_status i t status =
    if status == "interrupted"
    then (do
      modify (λ s. record s { terminal_error = some (error interrupted) })
      announce i RuntimeEventKind.turn_interrupted (status_metadata status) [] none
      announce i RuntimeEventKind.interrupted (status_metadata status) [] none)
    else if status == "completed"
    then (do
      modify (λ s. record s { result = some (turn_result i s t) })
      announce i RuntimeEventKind.turn_completed (status_metadata status) [] none)
    else (do
      modify (λ s. record s { terminal_error = some (error runtime_unavailable) })
      announce i RuntimeEventKind.turn_failed (status_metadata status) [] none)

-- The terminal event of the invocation.
unfoldable pub conclude :
    Invocation → String → Option Exc → Option RuntimeResult → Method Turn (Unit {0})
conclude i status none result =
    announce i RuntimeEventKind.invocation_completed (status_metadata status) [] result
conclude i status (some e) result = do
  announce i RuntimeEventKind.invocation_failed (status_metadata status) [] none
  throw e

unfoldable pub adopted : List Item → List Item → List Item
adopted [] new = new
adopted (item ∷ items) new = item ∷ items

unfoldable pub on_completed : Invocation → SdkTurn → Method Turn (Unit {0})
unfolding adopted
on_completed i t = do
  modify (λ s. record s { items = adopted s.items t.items; terminal_status = some (status_of t) })
  settle_status i t (status_of t)
  (λ s. conclude i (status_of t) s.terminal_error s.result s)

unfoldable pub delta_text : Option String → String
delta_text none = ""
delta_text (some s) = s

-- One notification of the stream.
unfoldable pub on_notification : Invocation → Notification → Method Turn (Unit {0})
unfolding delta_text
on_notification i (turn_started none) = pure tt
on_notification i (turn_started (some id)) = modify (λ s. record s { turn_id = id })
on_notification i (agent_message_delta delta) = do
  modify (λ s. record s { deltas = s.deltas ++ delta_text delta ∷ [] })
  announce i RuntimeEventKind.output_text_delta [] (("text", str_value (delta_text delta)) ∷ [])
      none
on_notification i (item_completed none) = pure tt
on_notification i (item_completed (some item)) =
    modify (λ s. record s { items = s.items ++ item ∷ [] })
on_notification i (token_usage_updated u) = do
  modify (λ s. record s { usage = u })
  announce i RuntimeEventKind.token_usage_updated (("usage", usage_metadata u) ∷ []) [] none
on_notification i (turn_completed t) = on_completed i t
on_notification i other_method = pure tt

-- `async for notification in self.handle.stream()`: the notifications, and how the stream ends.
unfoldable pub stream_loop : Invocation → List Notification → Py (Unit {0}) → Method Turn (Unit {0})
stream_loop i [] ending = lift ending
stream_loop i (n ∷ ns) ending = do on_notification i n; stream_loop i ns ending

-- The body of the `try`.
unfoldable pub run_stream : Invocation → List Notification → Py (Unit {0}) → Method Turn (Unit {0})
run_stream i ns ending = do
  announce i RuntimeEventKind.invocation_started (started_metadata i) [] none
  announce i RuntimeEventKind.turn_started [] [] none
  stream_loop i ns ending

-- `with suppress(Exception)`: a cancellation is no `Exception`.
unfoldable pub forget : {A : Type 0} → Py A → Py (Unit {0})
forget (ok a) = ok tt
forget (raise cancelled_error) = raise cancelled_error
forget (raise _) = ok tt

unfoldable pub suppress : {A : Type 0} → Method Turn A → Method Turn (Unit {0})
suppress m s = (forget (m s).0, (m s).1)

unfoldable pub interrupt : Invocation → Method Turn (Unit {0})
interrupt i s = (i.interrupt_outcome, record s { interrupts = s.interrupts + 1 })

unfoldable pub on_cancelled : Invocation → Method Turn (Unit {0})
on_cancelled i = do
  suppress (interrupt i)
  suppress (do
    e ← emit_event i RuntimeEventKind.cancelled (reason_metadata "cancelled") [] none
    publish i e)
  throw cancelled_error

unfoldable pub fail_transport : Invocation → String → Method Turn (Unit {0})
fail_transport i reason = do
  modify (λ s. record s { terminal_error = some (error transport) })
  announce i RuntimeEventKind.invocation_failed (reason_metadata reason) [] none
  throw (error transport)

unfoldable pub fail_unsettled : Invocation → Option String → Method Turn (Unit {0})
fail_unsettled i none =
    announce i RuntimeEventKind.invocation_failed (reason_metadata "transport") [] none
fail_unsettled i (some status) = pure tt

-- The `except` clauses.
unfoldable pub on_error : Invocation → Exc → Method Turn (Unit {0})
on_error i cancelled_error = on_cancelled i
on_error i (agent e) = do (λ s. fail_unsettled i s.terminal_status s); throw (agent e)
on_error i _ = fail_transport i "transport"

unfoldable pub recover_stream : Invocation → Py (Unit {0}) → Method Turn (Unit {0})
recover_stream i (ok u) s = (ok tt, s)
recover_stream i (raise e) s = on_error i e s

-- The `finally` clause. A cleanup that raises would leave `finished` unset; those that the provider
-- installs remove dictionary entries and cancel futures, and are taken not to raise.
unfoldable pub release : Turn → Turn
release s = record s {
  cleanup = false;
  cleanups = s.cleanups + (if s.cleanup then 1 else 0);
  finished = true;
}

-- What stands after the `try` statement.
unfoldable pub require_terminal : Invocation → Option String → Method Turn (Unit {0})
require_terminal i none = fail_transport i "missing_terminal"
require_terminal i (some status) = pure tt

unfoldable pub try_stream : Invocation → List Notification → Py (Unit {0}) → Method Turn (Unit {0})
try_stream i ns ending s =
    let (r, t) = run_stream i ns ending s in let (r', u) = recover_stream i r t in (r', release u)

-- `events`
unfoldable pub events : Invocation → List Notification → Py (Unit {0}) → Method Turn (Unit {0})
events i ns ending = do try_stream i ns ending; (λ s. require_terminal i s.terminal_status s)
