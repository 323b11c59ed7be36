-- ===== src/Codex/Task/Ending.antt =====
-- The steps of a `close` keep a task coherent (providers/codex/runtime.py, `_CodexTask.close`).
use proteo_runtime.Prelude.{
  String, ◌≡◌, ◌≢◌, refl, sym, ap, ◌∙◌, Bool, true, false, ◌&&◌, List, arith, if◌then◌else◌,
}
use proteo_runtime.Prelude.Result.{ok, raise}
use proteo_runtime.Core.Errors.{
  Py, agent, cancelled_error, timeout_error, value_error, type_error, other_error,
}
use proteo_runtime.Codex.Task.{
  open_close, end_close, drop_context, clean_tools, TaskState, is_open, closing, closed, Holder,
  free, starting, running, tearing, Closer, no_closer, stopping, queued, working, TaskConfig, Task,
  stop_run, acquire_lock, tear_down,
}
use proteo_runtime.Codex.Task.Lifecycle.{runs_as, tears, closes_as, works, closings, IsCoherent}

-- A `close` is at work in a closing task only.
closes_as-closing :
    (s : TaskState) (k : Closer) → closes_as s k ≡ true → k ≢ no_closer → s ≡ closing
closes_as-closing closing k h other = refl
closes_as-closing is_open no_closer h other = absurd (other refl)
closes_as-closing closed no_closer h other = absurd (other refl)
closes_as-closing is_open stopping h other = absurd (cc)
closes_as-closing is_open queued h other = absurd (cc)
closes_as-closing is_open working h other = absurd (cc)
closes_as-closing closed stopping h other = absurd (cc)
closes_as-closing closed queued h other = absurd (cc)
closes_as-closing closed working h other = absurd (cc)

pub closer-closing :
    (t : Task) (k : Closer) → t.closer ≡ k → k ≢ no_closer → IsCoherent t → t.state ≡ closing
closer-closing t k at_work other h =
    closes_as-closing t.state t.closer h.one_closer (λ e. other (sym at_work ∙ e))

-- The end of a `close`, from a task whose lock no `close` holds any more.
end_close-IsCoherent :
    (t : Task)
    → t.active ≡ runs_as t.holder
    → tears t.holder ≡ false
    → t.closed_events ≡ 0
    → IsCoherent (end_close t)
unfolding end_close
end_close-IsCoherent t run lock none_yet = record {
  run_held = run;
  lock_held = lock;
  one_closer = refl;
  announced = omega (arith, none_yet);
}

-- A `close` that waits ends.
pub waiting-IsCoherent :
    (t : Task) (k : Closer)
    → t.closer ≡ k
    → k ≢ no_closer
    → works k ≡ false
    → IsCoherent t
    → IsCoherent (end_close t)
waiting-IsCoherent t k at_work other idle h =
    end_close-IsCoherent t h.run_held (h.lock_held ∙ ap works at_work ∙ idle)
      (h.announced ∙ ap closings (closer-closing t k at_work other h))

-- The `close` that has interrupted the run waits for the lock.
queued-IsCoherent :
    (t : Task) (codes : List String)
    → t.closer ≡ stopping
    → IsCoherent t
    → IsCoherent (record t { diagnostics = codes; closer = queued })
queued-IsCoherent t codes at_work h = record {
  run_held = h.run_held;
  lock_held = h.lock_held ∙ ap works at_work;
  one_closer =
      ap (λ (s : TaskState). closes_as s queued)
        (closer-closing t stopping at_work (λ e. absurd (cc)) h);
  announced = h.announced;
}

closes_as-idle : (k : Closer) → closes_as is_open k ≡ true → k ≡ no_closer
closes_as-idle no_closer h = refl
closes_as-idle stopping h = absurd (cc)
closes_as-idle queued h = absurd (cc)
closes_as-idle working h = absurd (cc)

opening-IsCoherent :
    (t : Task) (k : Closer)
    → t.state ≡ is_open
    → closes_as closing k ≡ true
    → works k ≡ false
    → IsCoherent t
    → IsCoherent (record t { state = closing; closer = k })
opening-IsCoherent t k now fits idle h =
    let no_one =
      closes_as-idle t.closer
        (ap (λ (s : TaskState). closes_as s t.closer) (sym now) ∙ h.one_closer) in
    record {
      run_held = h.run_held;
      lock_held = h.lock_held ∙ ap works no_one ∙ sym idle;
      one_closer = fits;
      announced = h.announced ∙ ap closings now;
    }

-- Opening a `close` sets its first wait.
begun-IsCoherent :
    (t : Task) (b : Bool)
    → t.state ≡ is_open
    → IsCoherent t
    → IsCoherent (record t { state = closing; closer = (if b then stopping else queued) })
begun-IsCoherent t true now h = opening-IsCoherent t stopping now refl refl h
begun-IsCoherent t false now h = opening-IsCoherent t queued now refl refl h

pub stop_run-IsCoherent :
    (outcome : Py (Unit {0})) (t : Task)
    → t.closer ≡ stopping
    → IsCoherent t
    → IsCoherent (stop_run outcome t)
unfolding stop_run
stop_run-IsCoherent (raise cancelled_error) t at_work h =
    waiting-IsCoherent t stopping at_work (λ e. absurd (cc)) refl h
stop_run-IsCoherent (ok u) t at_work h = queued-IsCoherent t _ at_work h
stop_run-IsCoherent (raise (agent e)) t at_work h = queued-IsCoherent t _ at_work h
stop_run-IsCoherent (raise timeout_error) t at_work h = queued-IsCoherent t _ at_work h
stop_run-IsCoherent (raise value_error) t at_work h = queued-IsCoherent t _ at_work h
stop_run-IsCoherent (raise type_error) t at_work h = queued-IsCoherent t _ at_work h
stop_run-IsCoherent (raise (other_error f)) t at_work h = queued-IsCoherent t _ at_work h

pub open_close-IsCoherent :
    (o : TaskState) (t : Task) → t.state ≡ o → IsCoherent t → IsCoherent (open_close o t)
unfolding open_close
open_close-IsCoherent closed t now h = h
open_close-IsCoherent closing t now h = record {
  run_held = h.run_held;
  lock_held = h.lock_held;
  one_closer = h.one_closer;
  announced = h.announced;
}
open_close-IsCoherent is_open t now h = begun-IsCoherent t t.active now h

pub acquire_lock-IsCoherent :
    (t : Task) → t.closer ≡ queued → t.holder ≡ free → IsCoherent t → IsCoherent (acquire_lock t)
unfolding acquire_lock
acquire_lock-IsCoherent t at_work f h = record {
  run_held = h.run_held ∙ ap runs_as f;
  lock_held = refl;
  one_closer =
      ap (λ (s : TaskState). closes_as s working)
        (closer-closing t queued at_work (λ e. absurd (cc)) h);
  announced = h.announced;
}

-- The cleanup leaves the run, its events and the lock as they are.
pub record SameRun (s t : Task) : Type 0 where
  pub same_active : t.active ≡ s.active
  pub same_events : t.closed_events ≡ s.closed_events

SameRun-if :
    {s : Task} (b : Bool) (x y : Task) → SameRun s x → SameRun s y → SameRun s (if b then x else y)
SameRun-if true x y h k = h
SameRun-if false x y h k = k

pub clean_tools-SameRun :
    (c : TaskConfig) (fails : Bool) (t : Task) → SameRun t (clean_tools c fails t)
unfolding clean_tools
clean_tools-SameRun c fails t =
    SameRun-if (t.active && t.cleanup) _ _ (record { same_active = refl; same_events = refl })
      (SameRun-if (c.has_tools && t.invocation) _ _
        (record { same_active = refl; same_events = refl })
        (record { same_active = refl; same_events = refl }))

pub drop_context-SameRun :
    (thread workspace : Py (Unit {0})) (t : Task) → SameRun t (drop_context thread workspace t)
unfolding drop_context
drop_context-SameRun (raise cancelled_error) workspace t = record {
  same_active = refl;
  same_events = refl;
}
drop_context-SameRun (ok u) workspace t = record { same_active = refl; same_events = refl }
drop_context-SameRun (raise (agent e)) workspace t = record {
  same_active = refl;
  same_events = refl;
}
drop_context-SameRun (raise timeout_error) workspace t = record {
  same_active = refl;
  same_events = refl;
}
drop_context-SameRun (raise value_error) workspace t = record {
  same_active = refl;
  same_events = refl;
}
drop_context-SameRun (raise type_error) workspace t = record {
  same_active = refl;
  same_events = refl;
}
drop_context-SameRun (raise (other_error f)) workspace t = record {
  same_active = refl;
  same_events = refl;
}

tears-runs_as : (k : Holder) → tears k ≡ true → runs_as k ≡ false
tears-runs_as tearing h = refl
tears-runs_as free h = absurd (cc)
tears-runs_as starting h = absurd (cc)
tears-runs_as running h = absurd (cc)

-- When a `close` tears a task down, no run is active.
pub working-inactive : (t : Task) → t.closer ≡ working → IsCoherent t → t.active ≡ false
working-inactive t at_work h = h.run_held ∙ tears-runs_as t.holder (h.lock_held ∙ ap works at_work)

pub tear_down-IsCoherent :
    (c : TaskConfig) (fails : Bool) (thread workspace : Py (Unit {0})) (t : Task)
    → t.closer ≡ working
    → IsCoherent t
    → IsCoherent (tear_down c fails thread workspace t)
unfolding tear_down
tear_down-IsCoherent c fails thread workspace t at_work h =
    let u = clean_tools c fails t in
    let v = drop_context thread workspace u in
    let cleaned = clean_tools-SameRun c fails t in
    let dropped = drop_context-SameRun thread workspace u in
    end_close-IsCoherent (record v { holder = free })
      (dropped.same_active ∙ cleaned.same_active ∙ working-inactive t at_work h) refl
      (dropped.same_events
        ∙ cleaned.same_events
        ∙ h.announced
        ∙ ap closings (closer-closing t working at_work (λ e. absurd (cc)) h))
