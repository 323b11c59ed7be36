-- ===== src/Codex/Task/Refinement.antt =====
-- The lifecycle that a task promises (core/task.py, `TaskState`), and how the steps of `_CodexTask` of
-- providers/codex/runtime.py implement it.
use proteo_runtime.Prelude.{
  ℕ, ◌+◌, ◌≡◌, refl, ap, ◌∙◌, inl, inr, Bool, true, false, Option, if◌then◌else◌,
}
use proteo_runtime.Prelude.Result.{ok, raise}
use proteo_runtime.Core.Errors.{Py, cancelled_error}
use proteo_runtime.Core.Input.{Input}
use proteo_runtime.Core.Invocation.{InvocationConfig}
use proteo_runtime.Codex.Task.{
  begin_turn, prepare_turn, start_turn, admit, install, abandon_turn, set_active, finish_turn,
  open_close, begin_close, stop_run, acquire_lock, cancel_close, end_close, clean_tools, tear_down,
  TaskState, is_open, closing, closed, stopping, queued, working, TaskConfig, Task, new_task,
}
use proteo_runtime.Codex.Task.Lifecycle.{
  Step, turn_begins, turn_starts, turn_finishes, close_begins, close_stops, close_acquires,
  close_ends, close_cancelled, Steps, IsCoherent,
}
use proteo_runtime.Codex.Task.Turning.{take_turn-cases}
use proteo_runtime.Codex.Task.Ending.{closer-closing, clean_tools-SameRun, drop_context-SameRun}
use proteo_runtime.Codex.Task.Coherence.{new_task-Steps}

-- The promise of a task: it is open, then closing, then closed for good, and announces only that it is
-- closed, when it becomes so.
pub data Advance (s t : Task) : Type 0 where
  stays : t.state ≡ s.state → t.closed_events ≡ s.closed_events → Advance s t
  begins : s.state ≡ is_open → t.state ≡ closing → t.closed_events ≡ s.closed_events → Advance s t
  ends : s.state ≡ closing → t.state ≡ closed → t.closed_events ≡ s.closed_events + 1 → Advance s t

begin_turn-Advance :
    (c : TaskConfig) (input : Input) (config : Option InvocationConfig) (raw : Option Bool)
    (t : Task)
    → Advance t (begin_turn c input config raw t).1
unfolding begin_turn
begin_turn-Advance c input config raw t =
    elim (take_turn-cases (prepare_turn c input config raw t) t) [
      | inl same ↦ stays (ap (λ (u : Task). u.state) same) (ap (λ (u : Task). u.closed_events) same)
      | inr (x, taken) ↦
          stays (ap (λ (u : Task). u.state) taken) (ap (λ (u : Task). u.closed_events) taken)
    ]

Advance-if :
    {s : Task} (b : Bool) (x y : Py (Unit {0}) × Task)
    → Advance s x.1
    → Advance s y.1
    → Advance s (if b then x else y).1
Advance-if true x y h k = h
Advance-if false x y h k = k

install-Advance :
    (c : TaskConfig) (bridge : Py (Unit {0})) (t : Task) → Advance t (install c bridge t).1
unfolding install set_active abandon_turn
install-Advance c (ok u) t = stays refl refl
install-Advance c (raise e) t = Advance-if c.has_tools _ _ (stays refl refl) (stays refl refl)

admit-Advance :
    (c : TaskConfig) (bridge : Py (Unit {0})) (o : TaskState) (t : Task)
    → Advance t (admit c bridge o t).1
unfolding admit abandon_turn
admit-Advance c bridge is_open t = install-Advance c bridge t
admit-Advance c bridge closing t = stays refl refl
admit-Advance c bridge closed t = stays refl refl

start_turn-Advance :
    (c : TaskConfig) (handle bridge : Py (Unit {0})) (t : Task)
    → Advance t (start_turn c handle bridge t).1
unfolding start_turn
start_turn-Advance c (raise e) bridge t = stays refl refl
start_turn-Advance c (ok u) bridge t = admit-Advance c bridge t.state t

open_close-Advance : (o : TaskState) (t : Task) → t.state ≡ o → Advance t (open_close o t)
unfolding open_close
open_close-Advance is_open t now = begins now refl refl
open_close-Advance closing t now = stays refl refl
open_close-Advance closed t now = stays refl refl

end_close-Advance : (t : Task) → t.state ≡ closing → Advance t (end_close t)
unfolding end_close
end_close-Advance t ending = ends ending refl refl

stop_run-Advance :
    (outcome : Py (Unit {0})) (t : Task) → t.state ≡ closing → Advance t (stop_run outcome t)
unfolding stop_run
stop_run-Advance (raise cancelled_error) t ending = end_close-Advance t ending
stop_run-Advance _ t ending = stays refl refl

tear_down-Advance :
    (c : TaskConfig) (fails : Bool) (thread workspace : Py (Unit {0})) (t : Task)
    → t.state ≡ closing
    → Advance t (tear_down c fails thread workspace t)
unfolding tear_down end_close
tear_down-Advance c fails thread workspace t ending =
    let same =
      (drop_context-SameRun thread workspace (clean_tools c fails t)).same_events
      ∙ (clean_tools-SameRun c fails t).same_events in
    ends ending refl (ap (λ (n : ℕ). n + 1) same)

Step-Advance : (c : TaskConfig) {s t : Task} → Step c s t → IsCoherent s → Advance s t
unfolding begin_close cancel_close finish_turn acquire_lock
Step-Advance c {s} (turn_begins input config raw) h = begin_turn-Advance c input config raw s
Step-Advance c {s} (turn_starts handle bridge begun) h = start_turn-Advance c handle bridge s
Step-Advance c {s} (turn_finishes runs) h = stays refl refl
Step-Advance c {s} close_begins h = open_close-Advance s.state s refl
Step-Advance c {s} (close_stops outcome at_work) h =
    stop_run-Advance outcome s (closer-closing s stopping at_work (λ e. absurd (cc)) h)
Step-Advance c {s} (close_acquires at_work f) h = stays refl refl
Step-Advance c {s} (close_ends fails thread workspace at_work) h =
    tear_down-Advance c fails thread workspace s
      (closer-closing s working at_work (λ e. absurd (cc)) h)
Step-Advance c {s} (close_cancelled (inl at_work)) h =
    end_close-Advance s (closer-closing s stopping at_work (λ e. absurd (cc)) h)
Step-Advance c {s} (close_cancelled (inr at_work)) h =
    end_close-Advance s (closer-closing s queued at_work (λ e. absurd (cc)) h)

-- Every step of a turn or of a `close`, from any reachable task, implements a step of the promised
-- lifecycle: it leaves the state and the announcements as they are, or it begins the one closing of an
-- open task, or it ends a closing and announces that with one event.
pub Steps-Advance : (c : TaskConfig) (s t : Task) → Steps c new_task s → Step c s t → Advance s t
Steps-Advance c s t steps step = Step-Advance c step (new_task-Steps c s steps)
