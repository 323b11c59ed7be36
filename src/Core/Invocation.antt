-- ===== src/Core/Invocation.antt =====
-- src/proteo_runtime/core/model.py, `InvocationConfig`, and `_merge_invocation_config` of
-- providers/codex/runtime.py. A timeout is the bits of a positive double, or zero.
use proteo_runtime.Prelude.{
  String, ℕ, Bool, false, not, ◌==◌, Option, none, some, [], ◌∷◌, string_eq,
}
use proteo_runtime.Prelude.Dict.{Dict, insert}
use proteo_runtime.Tools.Values.{Value}

pub record InvocationConfig : Type 0 where
  pub model : Option String
  pub reasoning_effort : Option String
  pub include_raw : Option Bool
  pub timeout_seconds : Option ℕ
  pub metadata : Dict String Value

or_else {ℓ} : {A : Type ℓ} → Option A → Option A → Option A
or_else none old = old
or_else (some new) old = some new

-- `metadata.update(override)`
update : Dict String Value → Dict String Value → Dict String Value
update base [] = base
update base ((key, v) ∷ rest) = update (insert key v base) rest

-- `_merge_invocation_config`; what it merges has been accepted by `InvocationConfig` before.
unfoldable pub merge_invocation_config :
    InvocationConfig → Option InvocationConfig → InvocationConfig
unfolding or_else update
merge_invocation_config base none = base
merge_invocation_config base (some override) = record {
  model = or_else override.model base.model;
  reasoning_effort = or_else override.reasoning_effort base.reasoning_effort;
  include_raw = or_else override.include_raw base.include_raw;
  timeout_seconds = or_else override.timeout_seconds base.timeout_seconds;
  metadata = update base.metadata override.metadata;
}

-- Whether an override differs from what a task or a session is bound to.
unfoldable pub overrides : Option String → String → Bool
overrides none own = false
overrides (some given) own = not (given == own)

unfoldable pub override_model : Option InvocationConfig → Option String
override_model none = none
override_model (some c) = c.model

unfoldable pub override_effort : Option InvocationConfig → Option String
override_effort none = none
override_effort (some c) = c.reasoning_effort

unfoldable pub raw_override : Option Bool → Option InvocationConfig
raw_override none = none
raw_override (some b) = some (record {
  model = none;
  reasoning_effort = none;
  include_raw = some b;
  timeout_seconds = none;
  metadata = [];
})
