-- ===== src/Codex/Task/Late.antt =====
-- Turns that come too late for a task (providers/codex/runtime.py, `_CodexTask`).
use proteo_runtime.Prelude.{◌≡◌, ◌≢◌, refl, sym, ◌∙◌, inl, inr, Bool, false, Option}
use proteo_runtime.Prelude.Result.{ok, raise}
use proteo_runtime.Core.Errors.{
  Py, agent, cancelled_error, timeout_error, value_error, type_error, other_error,
}
use proteo_runtime.Core.Input.{Input}
use proteo_runtime.Core.Invocation.{InvocationConfig}
use proteo_runtime.Codex.Task.{
  admit, abandon_turn, open_close, end_close, drop_context, clean_tools, TaskState, is_open,
  closing, closed, free, TaskConfig, Task, prepare_turn, begin_turn, start_turn, finish_turn,
  begin_close, stop_run, acquire_lock, cancel_close, tear_down,
}
use proteo_runtime.Codex.Task.Lifecycle.{
  Step, turn_begins, turn_starts, turn_finishes, close_begins, close_stops, close_acquires,
  close_ends, close_cancelled, Steps, done, then_step,
}
use proteo_runtime.Codex.Task.Turning.{take_turn-cases, prepare_turn-ok}
use proteo_runtime.Codex.Task.Ending.{clean_tools-SameRun, drop_context-SameRun}

-- A task whose `close` has begun and that has no active run.
pub record IsLate (t : Task) : Type 0 where
  pub begun : t.state ≢ is_open
  pub no_run : t.active ≡ false

IsLate-same : (s t : Task) → t.state ≡ s.state → t.active ≡ s.active → IsLate s → IsLate t
IsLate-same s t same_state same_run h = record {
  begun = λ e. h.begun (sym same_state ∙ e);
  no_run = same_run ∙ h.no_run;
}

end_close-IsLate : (t : Task) → t.active ≡ false → IsLate (end_close t)
unfolding end_close
end_close-IsLate t idle = record { begun = λ e. absurd (cc); no_run = idle }

begin_turn-IsLate :
    (c : TaskConfig) (input : Input) (config : Option InvocationConfig) (raw : Option Bool)
    (t : Task)
    → IsLate t
    → IsLate (begin_turn c input config raw t).1
unfolding begin_turn
begin_turn-IsLate c input config raw t h =
    elim (take_turn-cases (prepare_turn c input config raw t) t) [
      | inl same ↦ rw same h
      | inr ((x, fine), taken) ↦ absurd (h.begun (prepare_turn-ok c input config raw t fine).0)
    ]

admit-IsLate :
    (c : TaskConfig) (bridge : Py (Unit {0})) (o : TaskState) (t : Task)
    → o ≢ is_open
    → IsLate t
    → IsLate (admit c bridge o t).1
unfolding admit abandon_turn
admit-IsLate c bridge is_open t shut h = absurd (shut refl)
admit-IsLate c bridge closing t shut h = IsLate-same t _ refl refl h
admit-IsLate c bridge closed t shut h = IsLate-same t _ refl refl h

start_turn-IsLate :
    (c : TaskConfig) (handle bridge : Py (Unit {0})) (t : Task)
    → IsLate t
    → IsLate (start_turn c handle bridge t).1
unfolding start_turn
start_turn-IsLate c (raise e) bridge t h = IsLate-same t _ refl refl h
start_turn-IsLate c (ok u) bridge t h = admit-IsLate c bridge t.state t h.begun h

open_close-IsLate : (o : TaskState) (t : Task) → o ≢ is_open → IsLate t → IsLate (open_close o t)
unfolding open_close
open_close-IsLate is_open t shut h = absurd (shut refl)
open_close-IsLate closing t shut h = IsLate-same t _ refl refl h
open_close-IsLate closed t shut h = h

stop_run-IsLate : (outcome : Py (Unit {0})) (t : Task) → IsLate t → IsLate (stop_run outcome t)
unfolding stop_run
stop_run-IsLate (raise cancelled_error) t h = end_close-IsLate t h.no_run
stop_run-IsLate (ok u) t h = IsLate-same t _ refl refl h
stop_run-IsLate (raise (agent e)) t h = IsLate-same t _ refl refl h
stop_run-IsLate (raise timeout_error) t h = IsLate-same t _ refl refl h
stop_run-IsLate (raise value_error) t h = IsLate-same t _ refl refl h
stop_run-IsLate (raise type_error) t h = IsLate-same t _ refl refl h
stop_run-IsLate (raise (other_error f)) t h = IsLate-same t _ refl refl h

tear_down-IsLate :
    (c : TaskConfig) (fails : Bool) (thread workspace : Py (Unit {0})) (t : Task)
    → IsLate t
    → IsLate (tear_down c fails thread workspace t)
unfolding tear_down
tear_down-IsLate c fails thread workspace t h =
    let u = clean_tools c fails t in
    let v = drop_context thread workspace u in
    end_close-IsLate (record v { holder = free })
      ((drop_context-SameRun thread workspace u).same_active
        ∙ (clean_tools-SameRun c fails t).same_active
        ∙ h.no_run)

Step-IsLate : (c : TaskConfig) {s t : Task} → Step c s t → IsLate s → IsLate t
unfolding begin_close cancel_close finish_turn acquire_lock
Step-IsLate c {s} (turn_begins input config raw) h = begin_turn-IsLate c input config raw s h
Step-IsLate c {s} (turn_starts handle bridge begun) h = start_turn-IsLate c handle bridge s h
Step-IsLate c {s} (turn_finishes runs) h = record { begun = h.begun; no_run = refl }
Step-IsLate c {s} close_begins h = open_close-IsLate s.state s h.begun h
Step-IsLate c {s} (close_stops outcome at_work) h = stop_run-IsLate outcome s h
Step-IsLate c {s} (close_acquires at_work f) h = IsLate-same s _ refl refl h
Step-IsLate c {s} (close_ends fails thread workspace at_work) h =
    tear_down-IsLate c fails thread workspace s h
Step-IsLate c {s} (close_cancelled at_work) h = end_close-IsLate s h.no_run

-- A task whose `close` has begun and that has no active run never has one again, whatever turns are begun,
-- whatever starts that were on their way return, and whatever fails or is cancelled.
pub Steps-IsLate : (c : TaskConfig) (s t : Task) → Steps c s t → IsLate s → IsLate t
Steps-IsLate c s t done h = h
Steps-IsLate c s t (then_step {t = u} steps step) h =
    Step-IsLate c step (Steps-IsLate c s u steps h)
