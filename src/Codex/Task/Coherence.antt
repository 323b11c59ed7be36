-- ===== src/Codex/Task/Coherence.antt =====
-- Every reachable state of a task is coherent (providers/codex/runtime.py, `_CodexTask`).
use proteo_runtime.Prelude.{refl, inl, inr}
use proteo_runtime.Codex.Task.{
  stopping, queued, TaskConfig, Task, new_task, begin_close, cancel_close,
}
use proteo_runtime.Codex.Task.Lifecycle.{
  Step, turn_begins, turn_starts, turn_finishes, close_begins, close_stops, close_acquires,
  close_ends, close_cancelled, Steps, done, then_step, IsCoherent,
}
use proteo_runtime.Codex.Task.Turning.{
  begin_turn-IsCoherent, start_turn-IsCoherent, finish_turn-IsCoherent,
}
use proteo_runtime.Codex.Task.Ending.{
  stop_run-IsCoherent, open_close-IsCoherent, acquire_lock-IsCoherent, waiting-IsCoherent,
  tear_down-IsCoherent,
}

Step-IsCoherent : (c : TaskConfig) {s t : Task} → Step c s t → IsCoherent s → IsCoherent t
unfolding begin_close cancel_close
Step-IsCoherent c {s} (turn_begins input config raw) h =
    begin_turn-IsCoherent c input config raw s h
Step-IsCoherent c {s} (turn_starts handle bridge begun) h =
    start_turn-IsCoherent c handle bridge s begun h
Step-IsCoherent c {s} (turn_finishes runs) h = finish_turn-IsCoherent s runs h
Step-IsCoherent c {s} close_begins h = open_close-IsCoherent s.state s refl h
Step-IsCoherent c {s} (close_stops outcome at_work) h = stop_run-IsCoherent outcome s at_work h
Step-IsCoherent c {s} (close_acquires at_work f) h = acquire_lock-IsCoherent s at_work f h
Step-IsCoherent c {s} (close_ends fails thread workspace at_work) h =
    tear_down-IsCoherent c fails thread workspace s at_work h
Step-IsCoherent c {s} (close_cancelled (inl at_work)) h =
    waiting-IsCoherent s stopping at_work (λ e. absurd (cc)) refl h
Step-IsCoherent c {s} (close_cancelled (inr at_work)) h =
    waiting-IsCoherent s queued at_work (λ e. absurd (cc)) refl h

pub Steps-IsCoherent : (c : TaskConfig) {s t : Task} → Steps c s t → IsCoherent s → IsCoherent t
Steps-IsCoherent c done h = h
Steps-IsCoherent c (then_step steps step) h = Step-IsCoherent c step (Steps-IsCoherent c steps h)

new_task-IsCoherent : IsCoherent new_task
unfolding new_task
new_task-IsCoherent = record {
  run_held = refl;
  lock_held = refl;
  one_closer = refl;
  announced = refl;
}

-- However the turns and the closers of a task interleave, and whatever fails or is cancelled, its active
-- run is set exactly while a turn holds the lock behind its start, a `close` holds the lock exactly while
-- it works, in a closing task, and the task has emitted one TASK_CLOSED event if it is closed and none
-- before.
pub new_task-Steps : (c : TaskConfig) (t : Task) → Steps c new_task t → IsCoherent t
new_task-Steps c t steps = Steps-IsCoherent c steps new_task-IsCoherent
