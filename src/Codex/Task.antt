-- ===== src/Codex/Task.antt =====
-- providers/codex/runtime.py, `_CodexTask`: the state that the turns and the `close` of one task share. A
-- function is what one of them does between two awaits; Lifecycle has their interleavings. The events and
-- the outcome of a running turn are those of the runner; turns are those of `ainvoke`.
pub mod Lifecycle
pub mod Turning
pub mod Ending
pub mod Coherence
pub mod Closing
pub mod Late
pub mod Refinement
use proteo_runtime.Prelude.{
  ℕ, ◌+◌, String, Bool, true, false, not, ◌&&◌, ◌||◌, Option, none, some, List, [], ◌∷◌, ◌++◌, ◌==◌,
  string_eq, if◌then◌else◌, ◌≡◌,
}
use proteo_runtime.Prelude.Result.{ok, raise, raise_if, is_ok, ◌>>=◌, ◌>>◌}
use proteo_runtime.Core.Errors.{
  Py, Exc, agent, cancelled_error, timeout_error, error, configuration, session_not_found,
  session_busy, transport, runtime_timeout, cancellation,
}
use proteo_runtime.Core.Effects.{Method, pure, throw, lift}
use proteo_runtime.Core.Input.{Input, validate_task_input, serialize_input, messages_input}
use proteo_runtime.Core.Invocation.{
  InvocationConfig, merge_invocation_config, overrides, override_model, override_effort,
  raw_override,
}
use proteo_runtime.Codex.Turns.{RuntimeResult}

-- `TaskState`
pub data TaskState : Type 0 where
  is_open closing closed : TaskState

-- Who holds the turn lock: a turn before or after its `_start_turn`, or a `close`.
pub data Holder : Type 0 where
  free starting running tearing : Holder

-- Where the one `close` that does the work is: it interrupts the active turn, waits for the turn lock, or
-- holds it.
pub data Closer : Type 0 where
  no_closer stopping queued working : Closer

-- What a task is made with.
pub record TaskConfig : Type 0 where
  pub model : String
  pub effort : String
  pub config : InvocationConfig
  pub has_tools : Bool

-- `active` is whether `_active_run` is set, `cleanup` whether the callback of that run is still due,
-- `invocation` whether `_active_invocation_id` is set; `interrupted` counts the handles that a failed
-- start has interrupted, `waiters` the callers of `close` that wait for the event, and `closed_events` the
-- TASK_CLOSED events. `diagnostics` holds codes.
pub record Task : Type 0 where
  pub state : TaskState
  pub holder : Holder
  pub active : Bool
  pub cleanup : Bool
  pub invocation : Bool
  pub run_registered : Bool
  pub interrupted : ℕ
  pub closer : Closer
  pub waiters : ℕ
  pub ended_invocations : ℕ
  pub thread_deleted : Bool
  pub workspace_removed : Bool
  pub task_registered : Bool
  pub diagnostics : List String
  pub closed_events : ℕ

unfoldable pub new_task : Task
new_task = record {
  state = is_open;
  holder = free;
  active = false;
  cleanup = false;
  invocation = false;
  run_registered = false;
  interrupted = 0;
  closer = no_closer;
  waiters = 0;
  ended_invocations = 0;
  thread_deleted = false;
  workspace_removed = false;
  task_registered = true;
  diagnostics = [];
  closed_events = 0;
}

-- `_ensure_open`
unfoldable pub ensure_open : TaskState → Py (Unit {0})
ensure_open is_open = ok tt
ensure_open closing = raise (error session_not_found)
ensure_open closed = raise (error session_not_found)

unfoldable pub is_free : Holder → Bool
is_free free = true
is_free _ = false

-- `_validate_config`
unfoldable pub validate_config :
    TaskConfig → Option InvocationConfig → Option Bool → Py InvocationConfig
unfolding overrides override_model override_effort raw_override
validate_config c config include_raw = do
  raise_if (overrides (override_model config) c.model) (error configuration)
  raise_if (overrides (override_effort config) c.effort) (error configuration)
  ok (merge_invocation_config (merge_invocation_config c.config config) (raw_override include_raw))

-- A turn up to the call of `thread.turn`: its prompt and its configuration, with the lock taken.
unfoldable pub prepare_turn :
    TaskConfig
    → Input
    → Option InvocationConfig
    → Option Bool
    → Task
    → Py (String × InvocationConfig)
prepare_turn c input config include_raw t = do
  ensure_open t.state
  raise_if (not (is_free t.holder)) (error session_busy)
  effective ← validate_config c config include_raw
  messages ← validate_task_input input
  (prompt, instructions) ← serialize_input (messages_input messages)
  ok (prompt, effective)

unfoldable pub take_turn :
    Py (String × InvocationConfig) → Task → Py (String × InvocationConfig) × Task
take_turn (ok x) t = (ok x, record t { holder = starting })
take_turn (raise e) t = (raise e, t)

unfoldable pub begin_turn :
    TaskConfig
    → Input
    → Option InvocationConfig
    → Option Bool
    → Method Task (String × InvocationConfig)
unfolding take_turn
begin_turn c input config include_raw t = take_turn (prepare_turn c input config include_raw t) t

-- `_start_turn` once `thread.turn` has returned a handle: a task that closes meanwhile, and a bridge that
-- cannot be installed, interrupt the handle. `bridge` is what the installation ends in.
unfoldable pub set_active : TaskConfig → Task → Task
set_active c t = record t {
  active = true;
  cleanup = c.has_tools;
  invocation = true;
  run_registered = true;
  holder = running;
}

unfoldable pub abandon_turn : Exc → Task → Py (Unit {0}) × Task
abandon_turn e t = (raise e, record t { interrupted = t.interrupted + 1; holder = free })

unfoldable pub install : TaskConfig → Py (Unit {0}) → Method Task (Unit {0})
unfolding set_active abandon_turn
install c (ok u) t = (ok tt, set_active c t)
install c (raise e) t =
    if c.has_tools then abandon_turn e (record t { invocation = true }) else (ok tt, set_active c t)

unfoldable pub admit : TaskConfig → Py (Unit {0}) → TaskState → Method Task (Unit {0})
unfolding install abandon_turn
admit c bridge is_open t = install c bridge t
admit c bridge closing t = abandon_turn (error session_not_found) t
admit c bridge closed t = abandon_turn (error session_not_found) t

-- `handle` is what `thread.turn` ends in.
unfoldable pub start_turn : TaskConfig → Py (Unit {0}) → Py (Unit {0}) → Method Task (Unit {0})
unfolding admit
start_turn c (raise e) bridge t = (raise e, record t { holder = free })
start_turn c (ok u) bridge t = admit c bridge t.state t

-- The `finally` of a turn. Its cleanup unregisters the route of the turn and ends its invocation, which
-- remove dictionary entries and cancel futures, and is taken not to raise.
unfoldable pub finish_turn : Task → Task
finish_turn t = record t {
  active = false;
  cleanup = false;
  invocation = false;
  run_registered = false;
  ended_invocations = t.ended_invocations + (if t.cleanup then 1 else 0);
  holder = free;
}

-- What `ainvoke` makes of the end of its run.
unfoldable pub invoke_outcome : Py (Unit {0}) → Option RuntimeResult → Py RuntimeResult
invoke_outcome (ok u) (some result) = ok result
invoke_outcome (ok u) none = raise (error transport)
invoke_outcome (raise timeout_error) result = raise (error runtime_timeout)
invoke_outcome (raise cancelled_error) result = raise (error cancellation)
invoke_outcome (raise e) result = raise e

-- `close` up to its first await.
unfoldable pub open_close : TaskState → Task → Task
open_close closed t = t
open_close closing t = record t { waiters = t.waiters + 1 }
open_close is_open t = record t {
  state = closing;
  closer = (if t.active then stopping else queued);
}

unfoldable pub begin_close : Task → Task
unfolding open_close
begin_close t = open_close t.state t

noted : String → Py (Unit {0}) → List String → List String
noted code (ok u) codes = codes
noted code (raise e) codes = codes ++ code ∷ []

-- The `finally` of `close`.
unfoldable pub end_close : Task → Task
end_close t = record t {
  state = closed;
  closer = no_closer;
  waiters = 0;
  closed_events = t.closed_events + 1;
}

-- The active turn has been interrupted, or that has failed.
unfoldable pub stop_run : Py (Unit {0}) → Task → Task
unfolding noted
stop_run (raise cancelled_error) t = end_close t
stop_run outcome t = record t {
  diagnostics = noted "task.cleanup.interrupt_failed" outcome t.diagnostics;
  closer = queued;
}

-- The lock is free for the `close` that waits for it.
unfoldable pub acquire_lock : Task → Task
acquire_lock t = record t { holder = tearing; closer = working }

-- A `close` that is cancelled while it waits.
unfoldable pub cancel_close : Task → Task
cancel_close t = end_close t

-- A call of step 3 of `close`, by whether it raises an exception.
noted_tools : Bool → List String → List String
noted_tools true codes = codes ++ "task.cleanup.tool_state_failed" ∷ []
noted_tools false codes = codes

-- Step 3 of `close`: the run that is still set, or the invocation of a start that failed. The call may
-- raise, which leaves a diagnostic.
unfoldable pub clean_tools : TaskConfig → Bool → Task → Task
unfolding noted_tools
clean_tools c fails t =
    let told = record t {
      ended_invocations = t.ended_invocations + 1;
      diagnostics = noted_tools fails t.diagnostics;
    } in
    if t.active && t.cleanup
    then record told { cleanup = false }
    else if c.has_tools && t.invocation
    then told
    else t

-- Steps 4 to 6, by what the deletion of the thread and of the workspace end in.
unfoldable pub drop_context : Py (Unit {0}) → Py (Unit {0}) → Task → Task
unfolding noted
drop_context (raise cancelled_error) workspace t = t
drop_context thread workspace t = record t {
  thread_deleted = is_ok thread;
  workspace_removed = is_ok workspace;
  diagnostics =
      noted "task.cleanup.workspace_failed" workspace
        (noted "task.cleanup.provider_delete_failed" thread t.diagnostics);
  task_registered = false;
}

unfoldable pub tear_down : TaskConfig → Bool → Py (Unit {0}) → Py (Unit {0}) → Task → Task
unfolding clean_tools drop_context
tear_down c fails thread workspace t =
    let dropped = drop_context thread workspace (clean_tools c fails t) in
    end_close (record dropped { holder = free })
