-- ===== src/Codex/Session/Admission.antt =====
-- Which turns a session admits (providers/codex/runtime.py, `_CodexSession.ainvoke`).
use proteo_runtime.Prelude.{
  String, Bool, true, false, not, ◌&&◌, ◌≡◌, refl, Option, List, ◌==◌, string_eq, if◌then◌else◌,
  arith,
}
use proteo_runtime.Prelude.Result.{ok, raise, raise_if, >>=-eq-ok}
use proteo_runtime.Core.Errors.{
  Py, Exc, error, capability, context_policy, session_not_found, session_busy,
}
use proteo_runtime.Core.Input.{RuntimeMessage, Input, from_value}
use proteo_runtime.Core.Invocation.{InvocationConfig, overrides, override_model, override_effort}
use proteo_runtime.Codex.Session.{
  Session, SessionHandle, is_usable, ensure_usable, all_roles, is_user_role, is_system_or_user,
  validate_user_input, serialize_context, effective_config, prepare_session_turn, hold_lock,
  begin_session_turn,
}

-- The roles that a context policy permits.
unfoldable pub permits : String → List RuntimeMessage → Bool
permits policy messages =
    if policy == "runtime"
    then all_roles is_user_role messages
    else if policy == "hybrid"
    then all_roles is_system_or_user messages
    else true

-- The handle can be used, the lock is free, the policy permits every message, and nothing that the session
-- is bound to is overridden.
pub record Admitted (h : SessionHandle) (s : Session) (input : Input)
    (config : Option InvocationConfig) : Type 0 where
  pub messages : List RuntimeMessage
  pub read : from_value input ≡ ok messages
  pub usable : is_usable h s ≡ true
  pub unlocked : s.busy ≡ false
  pub permitted : permits s.context_policy messages ≡ true
  pub same_model : overrides (override_model config) s.model ≡ false
  pub same_effort : overrides (override_effort config) s.effort ≡ false

passed : (b : Bool) (e : Exc) {u : Unit {0}} → raise_if b e ≡ ok u → b ≡ false
passed false e h = refl
passed true e h = absurd (cc)

not-false : (b : Bool) → not b ≡ false → b ≡ true
not-false true h = refl
not-false false h = absurd (cc)

validate_user_input-permits :
    (policy : String) (messages : List RuntimeMessage) {u : Unit {0}}
    → validate_user_input policy messages ≡ ok u
    → permits policy messages ≡ true
unfolding validate_user_input permits
validate_user_input-permits policy messages h =
    let runtime = (policy == "runtime") && not (all_roles is_user_role messages) in
    let hybrid = (policy == "hybrid") && not (all_roles is_system_or_user messages) in
    let (a, first, second) =
      >>=-eq-ok (raise_if runtime (error context_policy))
        (λ u. raise_if hybrid (error context_policy)) h in
    let no_runtime = passed runtime (error context_policy) first in
    let no_hybrid = passed hybrid (error context_policy) second in
    ground (arith, no_runtime, no_hybrid)

effective_config-binding :
    (s : Session) (config : Option InvocationConfig) (raw : Option Bool) {x : InvocationConfig}
    → effective_config s config raw ≡ ok x
    → (overrides (override_model config) s.model ≡ false)
      × (overrides (override_effort config) s.effort ≡ false)
unfolding effective_config
effective_config-binding s config raw h =
    let (a, first, rest) = >>=-eq-ok (raise_if _ (error capability)) _ h in
    let (b, second, last) = >>=-eq-ok (raise_if _ (error capability)) _ rest in
    (passed _ (error capability) first, passed _ (error capability) second)

prepare_session_turn-Admitted :
    (h : SessionHandle) (input : Input) (config : Option InvocationConfig) (raw : Option Bool)
    (s : Session) {x : String × InvocationConfig}
    → prepare_session_turn h input config raw s ≡ ok x
    → Admitted h s input config
unfolding prepare_session_turn ensure_usable
prepare_session_turn-Admitted h input config raw s made =
    let (a, opened, b) =
      >>=-eq-ok (raise_if (not (is_usable h s)) (error session_not_found)) _ made in
    let (messages, read, c) = >>=-eq-ok (from_value input) _ b in
    let (d, fine, e) = >>=-eq-ok (validate_user_input s.context_policy messages) _ c in
    let (f, free, g) = >>=-eq-ok (raise_if s.busy (error session_busy)) _ e in
    let (prompt, written, i) = >>=-eq-ok (serialize_context s.context_policy messages) _ g in
    let (effective, bound, j) = >>=-eq-ok (effective_config s config raw) _ i in
    let (same_model, same_effort) = effective_config-binding s config raw bound in
    record {
      messages = messages;
      read = read;
      usable = not-false (is_usable h s) (passed _ (error session_not_found) opened);
      unlocked = passed s.busy (error session_busy) free;
      permitted = validate_user_input-permits s.context_policy messages fine;
      same_model = same_model;
      same_effort = same_effort;
    }

-- A turn that a session has begun, and one that it refuses.
pub data Attempted (h : SessionHandle) (s : Session) (input : Input)
    (config : Option InvocationConfig) (x : Py (String × InvocationConfig) × Session) : Type 0 where
  begun :
      (turn : String × InvocationConfig)
      → x ≡ (ok turn, record s { busy = true })
      → Admitted h s input config
      → Attempted h s input config x
  refused : (e : Exc) → x ≡ (raise e, s) → Attempted h s input config x

hold_lock-Attempted :
    (h : SessionHandle) (s : Session) (input : Input) (config : Option InvocationConfig)
    (raw : Option Bool) (r : Py (String × InvocationConfig))
    → prepare_session_turn h input config raw s ≡ r
    → Attempted h s input config (hold_lock r s)
unfolding hold_lock
hold_lock-Attempted h s input config raw (ok x) made =
    begun x refl (prepare_session_turn-Admitted h input config raw s made)
hold_lock-Attempted h s input config raw (raise e) made = refused e refl

-- A session begins a turn, by any of its handles, only if the handle is open, current and not deleted, no
-- other turn holds the lock, the context policy permits the role of every message, and the turn keeps the
-- model and the effort of the session; then the turn holds the lock. A turn that is refused leaves the
-- session as it was.
pub begin_session_turn-Attempted :
    (h : SessionHandle) (input : Input) (config : Option InvocationConfig) (raw : Option Bool)
    (s : Session)
    → Attempted h s input config (begin_session_turn h input config raw s)
unfolding begin_session_turn
begin_session_turn-Attempted h input config raw s = hold_lock-Attempted h s input config raw _ refl
