-- ===== src/Codex/Session.antt =====
-- providers/codex/runtime.py, `_CodexSession`: the handles of one persistent thread and the state that they
-- share, for turns of `ainvoke`.
pub mod Admission
use proteo_runtime.Prelude.{
  ℕ, ◌+◌, String, Bool, true, false, not, ◌&&◌, ◌||◌, nat_beq, Option, none, some, List, [], ◌∷◌,
  ◌==◌, string_eq, if◌then◌else◌,
}
use proteo_runtime.Prelude.Result.{ok, raise, raise_if, ◌>>=◌, ◌>>◌}
use proteo_runtime.Prelude.Text.{concat}
use proteo_runtime.Core.Errors.{
  Py, Exc, error, capability, context_policy, session_not_found, session_busy,
}
use proteo_runtime.Core.Effects.{Method}
use proteo_runtime.Core.Input.{
  Role, system, user, assistant, tool, RuntimeMessage, Input, messages_input, from_value,
  serialize_input,
}
use proteo_runtime.Core.Invocation.{
  InvocationConfig, merge_invocation_config, overrides, override_model, override_effort,
  raw_override,
}

-- `_SessionState`; `busy` is whether its lock is held, `active` whether `active` is set, `interrupts` how
-- often a `close` has interrupted the active turn.
pub record Session : Type 0 where
  pub model : String
  pub effort : String
  pub context_policy : String
  pub config : InvocationConfig
  pub busy : Bool
  pub active : Bool
  pub interrupts : ℕ
  pub closed_handles : ℕ
  pub archived : Bool
  pub deleted : Bool
  pub generation : ℕ
  pub workspace_removed : Bool

-- One handle.
pub record SessionHandle : Type 0 where
  pub closed : Bool
  pub generation : ℕ

-- Whether `_ensure_open` returns.
unfoldable pub is_usable : SessionHandle → Session → Bool
is_usable h s = not (h.closed || s.deleted || not (nat_beq h.generation s.generation))

-- `_ensure_open`
unfoldable pub ensure_usable : SessionHandle → Session → Py (Unit {0})
ensure_usable h s = raise_if (not (is_usable h s)) (error session_not_found)

unfoldable pub all_roles : (Role → Bool) → List RuntimeMessage → Bool
all_roles p [] = true
all_roles p (m ∷ ms) = if p m.role then all_roles p ms else false

unfoldable pub is_user_role : Role → Bool
is_user_role user = true
is_user_role _ = false

unfoldable pub is_system_or_user : Role → Bool
is_system_or_user user = true
is_system_or_user system = true
is_system_or_user _ = false

-- `_validate_user_input`
unfoldable pub validate_user_input : String → List RuntimeMessage → Py (Unit {0})
validate_user_input policy messages = do
  raise_if ((policy == "runtime") && not (all_roles is_user_role messages)) (error context_policy)
  raise_if ((policy == "hybrid") && not (all_roles is_system_or_user messages))
      (error context_policy)

hybrid_prompt : String → Option String → String
hybrid_prompt prompt none = prompt
hybrid_prompt prompt (some instructions) =
    concat ("[system]\n" ∷ instructions ∷ "\n\n" ∷ prompt ∷ [])

-- `_serialize_context`
unfoldable pub serialize_context : String → List RuntimeMessage → Py String
unfolding hybrid_prompt
serialize_context policy messages = do
  (prompt, instructions) ← serialize_input (messages_input messages)
  ok (if policy == "hybrid" then hybrid_prompt prompt instructions else prompt)

-- `_effective_config`
unfoldable pub effective_config :
    Session → Option InvocationConfig → Option Bool → Py InvocationConfig
effective_config s config include_raw = do
  raise_if (overrides (override_model config) s.model) (error capability)
  raise_if (overrides (override_effort config) s.effort) (error capability)
  ok (merge_invocation_config (merge_invocation_config s.config config) (raw_override include_raw))

-- A turn up to the call of `thread.turn`.
unfoldable pub prepare_session_turn :
    SessionHandle
    → Input
    → Option InvocationConfig
    → Option Bool
    → Session
    → Py (String × InvocationConfig)
prepare_session_turn h input config include_raw s = do
  ensure_usable h s
  messages ← from_value input
  validate_user_input s.context_policy messages
  raise_if s.busy (error session_busy)
  prompt ← serialize_context s.context_policy messages
  effective ← effective_config s config include_raw
  ok (prompt, effective)

unfoldable pub hold_lock :
    Py (String × InvocationConfig) → Session → Py (String × InvocationConfig) × Session
hold_lock (ok x) s = (ok x, record s { busy = true })
hold_lock (raise e) s = (raise e, s)

unfoldable pub begin_session_turn :
    SessionHandle
    → Input
    → Option InvocationConfig
    → Option Bool
    → Method Session (String × InvocationConfig)
begin_session_turn h input config include_raw s =
    hold_lock (prepare_session_turn h input config include_raw s) s

-- `thread.turn` and the installation of the bridge have ended.
unfoldable pub start_session_turn : Py (Unit {0}) → Method Session (Unit {0})
start_session_turn (ok u) s = (ok tt, record s { active = true })
start_session_turn (raise e) s = (raise e, record s { busy = false })

-- The `finally` of a turn.
unfoldable pub finish_session_turn : Session → Session
finish_session_turn s = record s { active = false; busy = false }

-- `close` of a handle that is not closed; the active turn may be that of another handle.
unfoldable pub close_handle : SessionHandle → Session → SessionHandle × Session
close_handle h s =
    if not (nat_beq h.generation s.generation)
    then (record h { closed = true }, s)
    else if h.closed
    then (h, s)
    else (
      record h { closed = true },
      record s {
        interrupts = s.interrupts + (if s.active then 1 else 0);
        closed_handles = s.closed_handles + 1;
        workspace_removed = true;
      },
    )

-- `archive`, by what `thread_archive` ends in.
unfoldable pub archive_session : SessionHandle → Py (Unit {0}) → Method Session (Unit {0})
archive_session h (raise e) s =
    if is_usable h s
    then if s.archived then (ok tt, s) else (raise e, s)
    else (raise (error session_not_found), s)
archive_session h (ok u) s =
    if is_usable h s
    then (ok tt, record s { archived = true })
    else (raise (error session_not_found), s)

-- `delete`, by what `delete_thread` ends in.
unfoldable pub delete_session :
    Py (Unit {0}) → SessionHandle × Session → Py (Unit {0}) × (SessionHandle × Session)
delete_session outcome (h, s) =
    if s.deleted || not (nat_beq h.generation s.generation)
    then (raise (error session_not_found), (h, s))
    else elim outcome [
      | raise e ↦ (raise e, (h, s))
      | ok u ↦ (
        ok tt,
        (record h { closed = true }, record s { deleted = true; workspace_removed = true }),
      )
    ]
