-- ===== src/Tools/Authority.antt =====
-- tools/__init__.py, `ToolExecutor.__init__`, `__setattr__`, `clone` and `freeze`: the authority of an
-- executor and the executor objects that share an event log.
pub mod Frozen
use proteo_runtime.Prelude.{
  ℕ, String, Bool, true, false, not, ◌||◌, Option, none, some, List, [], ◌∷◌, if◌then◌else◌,
}
use proteo_runtime.Prelude.Result.{Result, ok, raise, raise_if, ◌>>=◌, ◌>>◌}
use proteo_runtime.Core.Errors.{Py, Exc, value_error, plain_error}
use proteo_runtime.Tools.Values.{is_finite, le_zero}
use proteo_runtime.Tools.Types.{
  ToolFailurePolicy, ApprovalRequest, new_retry_policy, new_permission_policy,
}
use proteo_runtime.Tools.Registry.{Registry}
use proteo_runtime.Tools.Executor.{Authority, Answer, ToolEvent}
use proteo_runtime.Tools.Dedup.{Calls, no_calls}

-- An executor object. `log` refers to the list of events, which clones may share.
pub record Executor : Type 0 where
  pub authority : Authority
  pub log : ℕ
  pub calls : Calls
  pub sequence : ℕ
  pub frozen : Bool

bad_seconds : ℕ → Bool
bad_seconds t = not (is_finite t) || le_zero t

-- `ToolExecutor(...)`, with the reference of its event list.
unfoldable pub new_executor : Authority → Bool → ℕ → Py Executor
unfolding bad_seconds
new_executor a frozen log = do
  raise_if (bad_seconds a.timeout_seconds) value_error
  raise_if (bad_seconds a.approval_timeout_seconds) value_error
  ok (record { authority = a; log = log; calls = no_calls; sequence = 0; frozen = frozen })

-- An assignment to an attribute of an executor.
pub data Assignment : Type 0 where
  set_snapshot : Registry → Assignment
  set_permission_policy : List String → Assignment
  set_approval_handler : Option (List ApprovalRequest → Answer) → Assignment
  set_retry_policy : ℕ → Assignment
  set_failure_policy : ToolFailurePolicy → Assignment
  set_timeout_seconds set_approval_timeout_seconds : ℕ → Assignment
  set_event_sink : Option (List ToolEvent → Option Exc) → Assignment
  set_events : ℕ → Assignment
  set_calls : Calls → Assignment
  set_sequence : ℕ → Assignment
  set_frozen : Bool → Assignment

-- The names that `__setattr__` protects.
is_authority : Assignment → Bool
is_authority (set_snapshot x) = true
is_authority (set_permission_policy x) = true
is_authority (set_approval_handler x) = true
is_authority (set_retry_policy x) = true
is_authority (set_failure_policy x) = true
is_authority (set_timeout_seconds x) = true
is_authority (set_approval_timeout_seconds x) = true
is_authority _ = false

assign : Assignment → Executor → Executor
assign (set_snapshot x) e = record e { authority = record e.authority { snapshot = x } }
assign (set_permission_policy x) e = record e {
  authority = record e.authority { permission_policy = x };
}
assign (set_approval_handler x) e = record e {
  authority = record e.authority { approval_handler = x };
}
assign (set_retry_policy x) e = record e { authority = record e.authority { max_attempts = x } }
assign (set_failure_policy x) e = record e { authority = record e.authority { failure_policy = x } }
assign (set_timeout_seconds x) e = record e {
  authority = record e.authority { timeout_seconds = x };
}
assign (set_approval_timeout_seconds x) e = record e {
  authority = record e.authority { approval_timeout_seconds = x };
}
assign (set_event_sink x) e = record e { authority = record e.authority { event_sink = x } }
assign (set_events x) e = record e { log = x }
assign (set_calls x) e = record e { calls = x }
assign (set_sequence x) e = record e { sequence = x }
assign (set_frozen x) e = record e { frozen = x }

-- `__setattr__`; the `AttributeError` is a `plain_error`.
unfoldable pub set_attribute : Assignment → Executor → Py Executor
unfolding is_authority assign
set_attribute x e = do
  raise_if (if e.frozen then is_authority x else false) plain_error
  ok (assign x e)

or_else {ℓ} : {A : Type ℓ} → Option A → A → A
or_else none d = d
or_else (some x) d = x

clone_permissions : Option (List String) → List String → Py (List String)
clone_permissions none allowed = new_permission_policy allowed
clone_permissions (some given) allowed = ok given

-- `clone(snapshot=, permission_policy=, freeze=, share_events=)`; `fresh` refers to a new list of events.
unfoldable pub clone :
    Executor → Option Registry → Option (List String) → Bool → Bool → ℕ → Py Executor
unfolding or_else clone_permissions
clone e snapshot permissions freeze share fresh = do
  allowed ← clone_permissions permissions e.authority.permission_policy
  attempts ← new_retry_policy e.authority.max_attempts
  new_executor
      (record e.authority {
        snapshot = or_else snapshot e.authority.snapshot;
        permission_policy = allowed;
        max_attempts = attempts;
      })
      freeze (if share then e.log else fresh)
