-- ===== src/Core/Profiles/Boundaries.antt =====
-- What the validators of core/profiles.py accept, and what their refusals advise.
use proteo_runtime.Prelude.{String, ◌≡◌, ◌↔◌, arith}
use proteo_runtime.Prelude.Result.{Result, ok}
use proteo_runtime.Core.Profiles.{
  ProfileSpec, LifecycleMode, ContextPolicy, Refusal, validate_model_profile, validate_task_profile,
  validate_session_profile,
}

-- The three factories of a runtime.
pub data Factory : Type 0 where
  model task session : Factory

abbrev pub validate : Factory → ProfileSpec → String → Result Refusal (Unit {0})
validate model = validate_model_profile
validate task = validate_task_profile
validate session = validate_session_profile

-- The lifecycle and context that each factory is documented to require.
abbrev pub Required : Factory → ProfileSpec → Type 0
Required model s = (s.lifecycle ≡ LifecycleMode.ephemeral) × (s.context ≡ ContextPolicy.external)
Required task s = (s.lifecycle ≡ LifecycleMode.ephemeral) × (s.context ≡ ContextPolicy.runtime)
Required session s =
    (s.lifecycle ≡ LifecycleMode.persistent) × ¬ (s.context ≡ ContextPolicy.external)

-- For every specification and profile name, a factory's validator accepts exactly the lifecycle and
-- context that the factory requires: model ephemeral and external, task ephemeral and runtime,
-- session persistent and not external.
pub validate-Required :
    (f : Factory) (s : ProfileSpec) (p : String) → (validate f s p ≡ ok tt) ↔ Required f s
unfolding validate_model_profile validate_task_profile validate_session_profile
validate-Required model s p = (λ h. ground arith, λ h. ground arith)
validate-Required task s p = (λ h. ground arith, λ h. ground arith)
validate-Required session s p = (λ h. ground arith, λ h. ground arith)
