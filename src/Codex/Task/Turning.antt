-- ===== src/Codex/Task/Turning.antt =====
-- The steps of a turn keep a task coherent (providers/codex/runtime.py, `_prepare_turn` and `_start_turn` of
-- `_CodexTask`, and the end of a turn).
use proteo_runtime.Prelude.{
  String, ◌≡◌, refl, sym, ap, ◌∙◌, ◌⊎◌, inl, inr, Bool, true, false, Option, arith, if◌then◌else◌,
}
use proteo_runtime.Prelude.Result.{ok, raise}
use proteo_runtime.Core.Errors.{Py, Exc, error, session_not_found}
use proteo_runtime.Core.Input.{Input}
use proteo_runtime.Core.Invocation.{InvocationConfig}
use proteo_runtime.Codex.Task.{
  ensure_open, is_free, admit, install, abandon_turn, set_active, TaskState, is_open, closing,
  closed, free, starting, running, TaskConfig, Task, prepare_turn, take_turn, begin_turn,
  start_turn, finish_turn,
}
use proteo_runtime.Codex.Task.Lifecycle.{runs_as, tears, works, IsCoherent}

pub prepare_turn-ok :
    (c : TaskConfig) (input : Input) (config : Option InvocationConfig) (raw : Option Bool)
    (t : Task) {x : String × InvocationConfig}
    → prepare_turn c input config raw t ≡ ok x
    → (t.state ≡ is_open) × (t.holder ≡ free)
unfolding prepare_turn ensure_open is_free
prepare_turn-ok c input config raw t h = ground arith

pub take_turn-cases :
    (r : Py (String × InvocationConfig)) (t : Task)
    → ((take_turn r t).1 ≡ t)
      ⊎ (((x : String × InvocationConfig) × (r ≡ ok x))
          × ((take_turn r t).1 ≡ record t { holder = starting }))
unfolding take_turn
take_turn-cases (ok x) t = inr ((x, refl), refl)
take_turn-cases (raise e) t = inl refl

start-IsCoherent :
    (t : Task)
    → t.state ≡ is_open
    → t.holder ≡ free
    → IsCoherent t
    → IsCoherent (record t { holder = starting })
start-IsCoherent t o f h = record {
  run_held = h.run_held ∙ ap runs_as f;
  lock_held = sym (ap tears f) ∙ h.lock_held;
  one_closer = h.one_closer;
  announced = h.announced;
}

pub begin_turn-IsCoherent :
    (c : TaskConfig) (input : Input) (config : Option InvocationConfig) (raw : Option Bool)
    (t : Task)
    → IsCoherent t
    → IsCoherent (begin_turn c input config raw t).1
unfolding begin_turn
begin_turn-IsCoherent c input config raw t h =
    elim (take_turn-cases (prepare_turn c input config raw t) t) [
      | inl same ↦ rw same h
      | inr ((x, fine), taken) ↦
          let (o, f) = prepare_turn-ok c input config raw t fine in
          rw taken (start-IsCoherent t o f h)
    ]

-- A change of the holder and of the run.
held-IsCoherent :
    (t u : Task)
    → u.state ≡ t.state
    → u.closer ≡ t.closer
    → u.closed_events ≡ t.closed_events
    → u.active ≡ runs_as u.holder
    → tears u.holder ≡ tears t.holder
    → IsCoherent t
    → IsCoherent u
held-IsCoherent t u same_state same_closer same_events run lock h = record {
  run_held = run;
  lock_held = lock ∙ h.lock_held ∙ sym (ap works same_closer);
  one_closer = rw (same_state, same_closer) h.one_closer;
  announced = rw (same_state, same_events) h.announced;
}

abandon_turn-IsCoherent :
    (e : Exc) (t : Task) → t.holder ≡ starting → IsCoherent t → IsCoherent (abandon_turn e t).1
unfolding abandon_turn
abandon_turn-IsCoherent e t begun h =
    held-IsCoherent t _ refl refl refl (h.run_held ∙ ap runs_as begun) (sym (ap tears begun)) h

set_active-IsCoherent :
    (c : TaskConfig) (t : Task) → t.holder ≡ starting → IsCoherent t → IsCoherent (set_active c t)
unfolding set_active
set_active-IsCoherent c t begun h = held-IsCoherent t _ refl refl refl refl (sym (ap tears begun)) h

-- A start that fails behind the assignment of the invocation.
invoked-IsCoherent : (t : Task) → IsCoherent t → IsCoherent (record t { invocation = true })
invoked-IsCoherent t h = record {
  run_held = h.run_held;
  lock_held = h.lock_held;
  one_closer = h.one_closer;
  announced = h.announced;
}

IsCoherent-if :
    {A : Type 0} (b : Bool) (x y : A × Task)
    → IsCoherent x.1
    → IsCoherent y.1
    → IsCoherent (if b then x else y).1
IsCoherent-if true x y h k = h
IsCoherent-if false x y h k = k

install-IsCoherent :
    (c : TaskConfig) (bridge : Py (Unit {0})) (t : Task)
    → t.holder ≡ starting
    → IsCoherent t
    → IsCoherent (install c bridge t).1
unfolding install
install-IsCoherent c (ok u) t begun h = set_active-IsCoherent c t begun h
install-IsCoherent c (raise e) t begun h =
    IsCoherent-if c.has_tools _ _
      (abandon_turn-IsCoherent e (record t { invocation = true }) begun (invoked-IsCoherent t h))
      (set_active-IsCoherent c t begun h)

admit-IsCoherent :
    (c : TaskConfig) (bridge : Py (Unit {0})) (state : TaskState) (t : Task)
    → t.holder ≡ starting
    → IsCoherent t
    → IsCoherent (admit c bridge state t).1
unfolding admit
admit-IsCoherent c bridge is_open t begun h = install-IsCoherent c bridge t begun h
admit-IsCoherent c bridge closing t begun h =
    abandon_turn-IsCoherent (error session_not_found) t begun h
admit-IsCoherent c bridge closed t begun h =
    abandon_turn-IsCoherent (error session_not_found) t begun h

pub start_turn-IsCoherent :
    (c : TaskConfig) (handle bridge : Py (Unit {0})) (t : Task)
    → t.holder ≡ starting
    → IsCoherent t
    → IsCoherent (start_turn c handle bridge t).1
unfolding start_turn
start_turn-IsCoherent c (raise e) bridge t begun h =
    held-IsCoherent t _ refl refl refl (h.run_held ∙ ap runs_as begun) (sym (ap tears begun)) h
start_turn-IsCoherent c (ok u) bridge t begun h = admit-IsCoherent c bridge t.state t begun h

pub finish_turn-IsCoherent :
    (t : Task) → t.holder ≡ running → IsCoherent t → IsCoherent (finish_turn t)
unfolding finish_turn
finish_turn-IsCoherent t runs h = held-IsCoherent t _ refl refl refl refl (sym (ap tears runs)) h
