-- ===== src/Tools/Authority/Frozen.antt =====
-- What freezing and cloning an executor (tools/__init__.py) keep.
use proteo_runtime.Prelude.{
  ℕ, ◌≡◌, refl, ◌∙◌, Bool, true, none, List, [], ◌∷◌, arith, All, if◌then◌else◌,
}
use proteo_runtime.Prelude.Result.{ok, raise}
use proteo_runtime.Core.Errors.{Py}
use proteo_runtime.Tools.Types.{new_retry_policy, new_permission_policy}
use proteo_runtime.Tools.Dedup.{no_calls}
use proteo_runtime.Tools.Authority.{
  Executor, new_executor, Assignment, set_snapshot, set_permission_policy, set_approval_handler,
  set_retry_policy, set_failure_policy, set_timeout_seconds, set_approval_timeout_seconds,
  set_event_sink, set_events, set_calls, set_sequence, set_frozen, set_attribute, clone,
}

-- The state after an assignment that may raise.
after : Executor → Py Executor → Executor
after e (ok f) = f
after e (raise x) = e

-- Assignments in turn; an `AttributeError` ends only its own.
pub assign_all : Executor → List Assignment → Executor
unfolding after
assign_all e [] = e
assign_all e (x ∷ xs) = assign_all (after e (set_attribute x e)) xs

-- Neither the private flag nor the event sink, which is no authority.
abbrev pub IsGuarded : Assignment → Type 0
IsGuarded (set_frozen b) = ⊥
IsGuarded (set_event_sink f) = ⊥
IsGuarded _ = Unit {0}

step_frozen :
    (e : Executor) (x : Assignment)
    → e.frozen ≡ true
    → IsGuarded x
    → ((after e (set_attribute x e)).authority ≡ e.authority)
      × ((after e (set_attribute x e)).frozen ≡ true)
unfolding after set_attribute
step_frozen e (set_snapshot x) f g = ground arith
step_frozen e (set_permission_policy x) f g = ground arith
step_frozen e (set_approval_handler x) f g = ground arith
step_frozen e (set_retry_policy x) f g = ground arith
step_frozen e (set_failure_policy x) f g = ground arith
step_frozen e (set_timeout_seconds x) f g = ground arith
step_frozen e (set_approval_timeout_seconds x) f g = ground arith
step_frozen e (set_event_sink x) f g = absurd g
step_frozen e (set_events x) f g = ground arith
step_frozen e (set_calls x) f g = ground arith
step_frozen e (set_sequence x) f g = ground arith
step_frozen e (set_frozen x) f g = absurd g

-- No sequence of assignments changes the authority of a frozen executor, unless it assigns the private
-- `_frozen` flag or the event sink.
pub assign_all-authority :
    (e : Executor) (xs : List Assignment)
    → e.frozen ≡ true
    → All IsGuarded xs
    → (assign_all e xs).authority ≡ e.authority
unfolding assign_all
assign_all-authority e [] f g = refl
assign_all-authority e (x ∷ xs) f (g, gs) =
    let (same, still) = step_frozen e x f g in
    assign_all-authority (after e (set_attribute x e)) xs still gs ∙ same

-- `freeze`, and any `clone` without overrides: if it returns, the clone has the same authority, is frozen
-- as asked, starts with no deduplicated call and no event number used, and appends to the event log of
-- the original exactly if events are shared.
pub clone-authority :
    (e f : Executor) (freeze share : Bool) (fresh : ℕ)
    → clone e none none freeze share fresh ≡ ok f
    → (f.authority ≡ e.authority)
      × (f.frozen ≡ freeze)
      × (f.calls ≡ no_calls)
      × (f.sequence ≡ 0)
      × (f.log ≡ (if share then e.log else fresh))
unfolding clone new_executor new_permission_policy new_retry_policy
clone-authority e f freeze share fresh h = ground arith
