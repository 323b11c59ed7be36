-- ===== src/Core/Profiles.antt =====
-- src/proteo_runtime/core/profiles.py, context.py and security.py: the vocabulary of execution
-- profiles, the built-in specifications, and the three validators at the factories' boundaries.
pub mod Boundaries
use proteo_runtime.Prelude.{
  String, Bool, true, false, not, ◌&&◌, ◌||◌, Option, none, some, List, [], ◌∷◌, ◌==◌,
  if◌then◌else◌, string_eq,
}
use proteo_runtime.Prelude.Dict.{Dict, lookup}
use proteo_runtime.Prelude.Result.{Result, ok, raise, ◌>>=◌, ◌>>◌}
use proteo_runtime.Core.Errors.{Py, error, capability, value_error}

pub data LogicalLevel : Type 0 where
  low medium high ultra : LogicalLevel

pub data LifecycleMode : Type 0 where
  ephemeral persistent explicit : LifecycleMode

pub data ContextPolicy : Type 0 where
  external runtime hybrid explicit : ContextPolicy

pub data HostToolsMode : Type 0 where
  disabled controlled explicit provider_defined : HostToolsMode

pub data SecurityPolicy : Type 0 where
  isolated read_only controlled_tools native : SecurityPolicy

-- `EnumClass(value)` on a string: the member with that value.
abbrev pub lifecycle_values : Dict String LifecycleMode
lifecycle_values =
    ("ephemeral", LifecycleMode.ephemeral)
    ∷ ("persistent", LifecycleMode.persistent)
    ∷ ("explicit", LifecycleMode.explicit)
    ∷ []

abbrev pub context_values : Dict String ContextPolicy
context_values =
    ("external", ContextPolicy.external)
    ∷ ("runtime", ContextPolicy.runtime)
    ∷ ("hybrid", ContextPolicy.hybrid)
    ∷ ("explicit", ContextPolicy.explicit)
    ∷ []

abbrev pub host_tools_values : Dict String HostToolsMode
host_tools_values =
    ("disabled", HostToolsMode.disabled)
    ∷ ("controlled", HostToolsMode.controlled)
    ∷ ("explicit", HostToolsMode.explicit)
    ∷ ("provider_defined", HostToolsMode.provider_defined)
    ∷ []

abbrev pub security_values : Dict String SecurityPolicy
security_values =
    ("isolated", SecurityPolicy.isolated)
    ∷ ("read_only", SecurityPolicy.read_only)
    ∷ ("controlled_tools", SecurityPolicy.controlled_tools)
    ∷ ("native", SecurityPolicy.native)
    ∷ []

pub record ProfileSpec : Type 0 where
  pub lifecycle : LifecycleMode
  pub context : ContextPolicy
  pub host_tools : HostToolsMode
  pub security_policy : SecurityPolicy

-- An argument of the dataclass: a member, or a string that names one.
pub data Given (E : Type 0) : Type 0 where
  member : E → Given E
  text : String → Given E

or_value_error : {E : Type 0} → Option E → Py E
or_value_error none = raise value_error
or_value_error (some e) = ok e

normalize : {E : Type 0} → Dict String E → Given E → Py E
unfolding or_value_error lookup
normalize members (member e) = ok e
normalize members (text s) = or_value_error (lookup s members)

-- `ProfileSpec(...)` with its `__post_init__`.
pub new_profile_spec :
    Given LifecycleMode
    → Given ContextPolicy
    → Given HostToolsMode
    → Given SecurityPolicy
    → Py ProfileSpec
unfolding normalize
new_profile_spec l c h s = do
  lifecycle ← normalize lifecycle_values l
  context ← normalize context_values c
  host_tools ← normalize host_tools_values h
  policy ← normalize security_values s
  ok (record {
    lifecycle = lifecycle;
    context = context;
    host_tools = host_tools;
    security_policy = policy;
  })

-- The property `ProfileSpec.persistent`.
unfoldable pub is_persistent : ProfileSpec → Bool
is_persistent spec = elim spec.lifecycle [ LifecycleMode.persistent ↦ true | _ ↦ false ]

abbrev pub isolated_spec : LifecycleMode → ContextPolicy → ProfileSpec
isolated_spec l c = record {
  lifecycle = l;
  context = c;
  host_tools = HostToolsMode.disabled;
  security_policy = SecurityPolicy.isolated;
}

abbrev pub controlled_spec : ContextPolicy → ProfileSpec
controlled_spec c = record {
  lifecycle = LifecycleMode.ephemeral;
  context = c;
  host_tools = HostToolsMode.controlled;
  security_policy = SecurityPolicy.controlled_tools;
}

abbrev pub native_spec : ProfileSpec
native_spec = record {
  lifecycle = LifecycleMode.explicit;
  context = ContextPolicy.explicit;
  host_tools = HostToolsMode.provider_defined;
  security_policy = SecurityPolicy.native;
}

unfoldable pub default_profile_specs : Dict String ProfileSpec
default_profile_specs =
    ("brain", isolated_spec LifecycleMode.ephemeral ContextPolicy.external)
    ∷ ("structured", isolated_spec LifecycleMode.ephemeral ContextPolicy.external)
    ∷ ("session", isolated_spec LifecycleMode.persistent ContextPolicy.runtime)
    ∷ ("controlled_turn", controlled_spec ContextPolicy.external)
    ∷ ("controlled_agent", controlled_spec ContextPolicy.runtime)
    ∷ ("native", native_spec)
    ∷ []

or_capability_error : Option ProfileSpec → Py ProfileSpec
or_capability_error none = raise (error capability)
or_capability_error (some spec) = ok spec

unfoldable pub profile_spec : String → Py ProfileSpec
unfolding or_capability_error lookup default_profile_specs
profile_spec name = or_capability_error (lookup name default_profile_specs)

-- What the message of the `CapabilityError` tells the caller: the factory to use instead, or why none
-- is named.
pub data Refusal : Type 0 where
  use_model use_task use_session provider_native incompatible : Refusal

is_native : ProfileSpec → String → Bool
is_native spec profile =
    profile == "native" || (elim spec.security_policy [ SecurityPolicy.native ↦ true | _ ↦ false ])

is_lifecycle_persistent : LifecycleMode → Bool
is_lifecycle_persistent LifecycleMode.persistent = true
is_lifecycle_persistent _ = false

is_lifecycle_ephemeral : LifecycleMode → Bool
is_lifecycle_ephemeral LifecycleMode.ephemeral = true
is_lifecycle_ephemeral _ = false

is_context_external : ContextPolicy → Bool
is_context_external ContextPolicy.external = true
is_context_external _ = false

is_context_runtime : ContextPolicy → Bool
is_context_runtime ContextPolicy.runtime = true
is_context_runtime _ = false

unfoldable pub validate_model_profile : ProfileSpec → String → Result Refusal (Unit {0})
unfolding is_native is_persistent is_lifecycle_persistent is_lifecycle_ephemeral is_context_external
    is_context_runtime
validate_model_profile spec profile =
    if is_lifecycle_ephemeral spec.lifecycle && is_context_external spec.context
    then ok tt
    else if is_native spec profile
    then raise provider_native
    else if is_persistent spec || is_lifecycle_persistent spec.lifecycle
    then raise use_session
    else if is_context_runtime spec.context && is_lifecycle_ephemeral spec.lifecycle
    then raise use_task
    else raise incompatible

unfoldable pub validate_task_profile : ProfileSpec → String → Result Refusal (Unit {0})
unfolding is_persistent is_lifecycle_persistent is_lifecycle_ephemeral is_context_external
    is_context_runtime
validate_task_profile spec profile =
    if is_lifecycle_ephemeral spec.lifecycle && is_context_runtime spec.context
    then ok tt
    else if is_persistent spec || is_lifecycle_persistent spec.lifecycle
    then raise use_session
    else if is_context_external spec.context
    then raise use_model
    else raise incompatible

unfoldable pub validate_session_profile : ProfileSpec → String → Result Refusal (Unit {0})
unfolding is_persistent is_lifecycle_persistent is_lifecycle_ephemeral is_context_external
    is_context_runtime
validate_session_profile spec profile =
    if is_lifecycle_ephemeral spec.lifecycle
    then if is_context_runtime spec.context
      then raise use_task
      else if is_context_external spec.context
      then raise use_model
      else raise incompatible
    else if not (is_persistent spec) || not (is_lifecycle_persistent spec.lifecycle)
    then raise incompatible
    else if is_context_external spec.context
    then raise use_model
    else ok tt
