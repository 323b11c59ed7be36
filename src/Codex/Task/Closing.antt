-- ===== src/Codex/Task/Closing.antt =====
-- The end of a `close` (providers/codex/runtime.py, `_CodexTask.close`), and turns that come too late.
use proteo_runtime.Prelude.{◌≡◌, refl, sym, ap, ◌∙◌, true, false}
use proteo_runtime.Prelude.Result.{ok}
use proteo_runtime.Core.Errors.{Py, error, session_not_found}
use proteo_runtime.Codex.Task.{
  admit, abandon_turn, end_close, TaskState, is_open, closing, closed, Holder, free, starting,
  running, tearing, Closer, no_closer, stopping, queued, working, TaskConfig, Task, new_task,
  start_turn, finish_turn, stop_run, acquire_lock, tear_down, drop_context,
}
use proteo_runtime.Codex.Task.Lifecycle.{
  Step, close_stops, Steps, done, then_step, tears, closes_as, works, IsCoherent,
}
use proteo_runtime.Codex.Task.Coherence.{Steps-IsCoherent, new_task-Steps}

-- A step of the turn that has the lock or of the `close`, in which nothing is cancelled and the provider
-- answers. Only a `close` that waits takes the lock, and only while no other has it.
pub data Advances (c : TaskConfig) (s : Task) : Task → Type 0 where
  start_returns : s.holder ≡ starting → Advances c s (start_turn c (ok tt) (ok tt) s).1
  run_ends : s.holder ≡ running → Advances c s (finish_turn s)
  run_is_stopped : s.closer ≡ stopping → Advances c s (stop_run (ok tt) s)
  lock_is_taken : s.closer ≡ queued → s.holder ≡ free → Advances c s (acquire_lock s)
  context_is_dropped :
      s.closer ≡ working → s.holder ≡ tearing → Advances c s (tear_down c false (ok tt) (ok tt) s)

pub data Course (c : TaskConfig) : Task → Task → Type 0 where
  arrived : {s : Task} → s.state ≡ closed → Course c s s
  first_step : {s t u : Task} → Advances c s t → Course c t u → Course c s u

-- Such steps lead to a closed task that is torn down, with its lock free.
pub record Closes (c : TaskConfig) (t : Task) : Type 0 where
  pub end : Task
  pub path : Course c t end
  pub is_closed : end.state ≡ closed
  pub lock_free : end.holder ≡ free
  pub no_closer_left : end.closer ≡ no_closer
  pub deleted : end.thread_deleted ≡ true
  pub removed : end.workspace_removed ≡ true
  pub forgotten : end.task_registered ≡ false

Closes-from : {c : TaskConfig} {s t : Task} → Advances c s t → Closes c t → Closes c s
Closes-from step h = record {
  end = h.end;
  path = first_step step h.path;
  is_closed = h.is_closed;
  lock_free = h.lock_free;
  no_closer_left = h.no_closer_left;
  deleted = h.deleted;
  removed = h.removed;
  forgotten = h.forgotten;
}

module _ (c : TaskConfig) where
  working-Closes : (t : Task) → t.closer ≡ working → t.holder ≡ tearing → Closes c t
  unfolding tear_down end_close drop_context
  working-Closes t at_work locked = record {
    end = tear_down c false (ok tt) (ok tt) t;
    path = first_step (context_is_dropped at_work locked) (arrived refl);
    is_closed = refl;
    lock_free = refl;
    no_closer_left = refl;
    deleted = refl;
    removed = refl;
    forgotten = refl;
  }

  free-Closes : (t : Task) → t.closer ≡ queued → t.holder ≡ free → Closes c t
  unfolding acquire_lock
  free-Closes t waits f =
      Closes-from (lock_is_taken waits f) (working-Closes (acquire_lock t) refl refl)

  -- A start that returns to a closing task gives the lock back.
  admit-closing :
      (bridge : Py (Unit {0})) (o : TaskState) (t : Task)
      → o ≡ closing
      → admit c bridge o t ≡ abandon_turn (error session_not_found) t
  unfolding admit
  admit-closing bridge closing t h = refl
  admit-closing bridge is_open t h = absurd (cc)
  admit-closing bridge closed t h = absurd (cc)

  starting-Closes :
      (t : Task) → t.closer ≡ queued → t.state ≡ closing → t.holder ≡ starting → Closes c t
  unfolding start_turn abandon_turn
  starting-Closes t waits ending begun =
      let late = ap (λ (x : Py (Unit {0}) × Task). x.1) (admit-closing (ok tt) t.state t ending) in
      Closes-from (start_returns begun) (
        free-Closes _ (ap (λ (x : Task). x.closer) late ∙ waits) (ap (λ (x : Task). x.holder) late))

  running-Closes : (t : Task) → t.closer ≡ queued → t.holder ≡ running → Closes c t
  unfolding finish_turn
  running-Closes t waits runs = Closes-from (run_ends runs) (free-Closes (finish_turn t) waits refl)

  queued-Closes :
      (t : Task) (k : Holder)
      → t.holder ≡ k
      → t.closer ≡ queued
      → t.state ≡ closing
      → IsCoherent t
      → Closes c t
  queued-Closes t free held waits ending h = free-Closes t waits held
  queued-Closes t starting held waits ending h = starting-Closes t waits ending held
  queued-Closes t running held waits ending h = running-Closes t waits held
  queued-Closes t tearing held waits ending h =
      let clash : true ≡ false = sym (ap tears held) ∙ h.lock_held ∙ ap works waits in absurd (cc)

  stopping-Closes : (t : Task) → t.closer ≡ stopping → t.state ≡ closing → IsCoherent t → Closes c t
  unfolding stop_run
  stopping-Closes t stops ending h =
      let step : Step c t (stop_run (ok tt) t) = close_stops (ok tt) stops in
      Closes-from (run_is_stopped stops) (
        queued-Closes (stop_run (ok tt) t) t.holder refl refl ending
          (Steps-IsCoherent c (then_step done step) h))

  tears-tearing : (k : Holder) → tears k ≡ true → k ≡ tearing
  tears-tearing tearing h = refl
  tears-tearing free h = absurd (cc)
  tears-tearing starting h = absurd (cc)
  tears-tearing running h = absurd (cc)

  coherent-Closes :
      (t : Task) (k : Closer) → t.closer ≡ k → t.state ≡ closing → IsCoherent t → Closes c t
  coherent-Closes t stopping at_work ending h = stopping-Closes t at_work ending h
  coherent-Closes t queued at_work ending h = queued-Closes t t.holder refl at_work ending h
  coherent-Closes t working at_work ending h =
      working-Closes t at_work (tears-tearing t.holder (h.lock_held ∙ ap works at_work))
  coherent-Closes t no_closer at_work ending h =
      let clash : false ≡ true =
        sym (ap (λ (s : TaskState). closes_as s no_closer) ending)
        ∙ sym (ap (λ (k : Closer). closes_as t.state k) at_work)
        ∙ h.one_closer in
      absurd (cc)

-- No interleaving locks a `close` out: from every reachable task that is closing, steps of the turn that
-- holds the lock and of the `close` that waits for it, with a provider that answers and without a
-- cancellation, lead to a closed task with a free lock, whose thread and workspace are deleted and which
-- the runtime has forgotten.
pub Steps-Closes : (c : TaskConfig) (t : Task) → Steps c new_task t → t.state ≡ closing → Closes c t
Steps-Closes c t steps ending = coherent-Closes c t t.closer refl ending (new_task-Steps c t steps)
