-- ===== src/Codex/Task/Lifecycle.antt =====
-- The interleavings of the turns and the closers of one task (providers/codex/runtime.py, `_CodexTask`), and
-- what fits together in every state of one.
use proteo_runtime.Prelude.{ℕ, ◌≡◌, ◌⊎◌, Bool, true, false, Option}
use proteo_runtime.Core.Errors.{Py}
use proteo_runtime.Core.Input.{Input}
use proteo_runtime.Core.Invocation.{InvocationConfig}
use proteo_runtime.Codex.Task.{
  TaskState, is_open, closing, closed, Holder, free, starting, running, tearing, Closer, no_closer,
  stopping, queued, working, TaskConfig, Task, begin_turn, start_turn, finish_turn, begin_close,
  stop_run, acquire_lock, cancel_close, tear_down,
}

-- One step of a turn or of a closer.
pub data Step (c : TaskConfig) (s : Task) : Task → Type 0 where
  turn_begins :
      (input : Input) (config : Option InvocationConfig) (raw : Option Bool)
      → Step c s (begin_turn c input config raw s).1
  turn_starts :
      (handle bridge : Py (Unit {0}))
      → s.holder ≡ starting
      → Step c s (start_turn c handle bridge s).1
  turn_finishes : s.holder ≡ running → Step c s (finish_turn s)
  close_begins : Step c s (begin_close s)
  close_stops : (outcome : Py (Unit {0})) → s.closer ≡ stopping → Step c s (stop_run outcome s)
  close_acquires : s.closer ≡ queued → s.holder ≡ free → Step c s (acquire_lock s)
  close_ends :
      (fails : Bool) (thread workspace : Py (Unit {0}))
      → s.closer ≡ working
      → Step c s (tear_down c fails thread workspace s)
  close_cancelled : (s.closer ≡ stopping) ⊎ (s.closer ≡ queued) → Step c s (cancel_close s)

pub data Steps (c : TaskConfig) (s : Task) : Task → Type 0 where
  done : Steps c s s
  then_step : {t u : Task} → Steps c s t → Step c t u → Steps c s u

-- Whether an active run fits the holder of the lock.
abbrev pub runs_as : Holder → Bool
runs_as running = true
runs_as _ = false

abbrev pub tears : Holder → Bool
tears tearing = true
tears _ = false

-- Whether a closer fits the state of the task, and whether it has the lock.
abbrev pub closes_as : TaskState → Closer → Bool
closes_as is_open no_closer = true
closes_as closing no_closer = false
closes_as closed no_closer = true
closes_as closing _ = true
closes_as _ _ = false

abbrev pub works : Closer → Bool
works working = true
works _ = false

abbrev pub closings : TaskState → ℕ
closings closed = 1
closings _ = 0

-- The run is set exactly while a turn holds the lock behind its start, the lock belongs to a `close`
-- exactly while it works, a `close` is at work exactly in a closing task, and a closed task has emitted
-- one TASK_CLOSED event, any other none.
pub record IsCoherent (t : Task) : Type 0 where
  pub run_held : t.active ≡ runs_as t.holder
  pub lock_held : tears t.holder ≡ works t.closer
  pub one_closer : closes_as t.state t.closer ≡ true
  pub announced : t.closed_events ≡ closings t.state
