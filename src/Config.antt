-- ===== src/Config.antt =====
-- src/proteo_runtime/config/models.py: the version-one configuration, its validators, and the two
-- lookups that bind a profile and a level to a model.
pub mod Lookups
use proteo_runtime.Prelude.{
  ℕ, String, Bool, true, false, not, ◌&&◌, ◌||◌, ◌≡◌, ◌↔◌, Option, none, some, List, [], ◌∷◌, ◌==◌,
  if◌then◌else◌, string_eq, Eq, nat_beq, arith,
}
use proteo_runtime.Prelude.Dict.{Dict, lookup, has_key}
use proteo_runtime.Prelude.Result.{Result, ok, raise, raise_if, ◌>>=◌, ◌>>◌}
use proteo_runtime.Prelude.Text.{concat, is_empty}
use proteo_runtime.Core.Errors.{Py, error_at, configuration, value_error}
use proteo_runtime.Core.Profiles.{
  LogicalLevel, low, medium, high, ultra, LifecycleMode, ContextPolicy, HostToolsMode,
  SecurityPolicy, ProfileSpec, default_profile_specs,
}

pub record ModelMapping : Type 0 where
  pub model : String
  pub reasoning_effort : String

pub record ProfileConfig : Type 0 where
  pub lifecycle : LifecycleMode
  pub context_policy : ContextPolicy
  pub security_policy : SecurityPolicy
  pub host_tools : HostToolsMode

unfoldable pub to_spec : ProfileConfig → ProfileSpec
to_spec c = record {
  lifecycle = c.lifecycle;
  context = c.context_policy;
  host_tools = c.host_tools;
  security_policy = c.security_policy;
}

pub record RuntimeConfigV1 : Type 0 where
  pub runtime : String
  pub profiles : Dict String (Dict LogicalLevel ModelMapping)
  pub profile_specs : Dict String ProfileConfig

abbrev pub level_index : LogicalLevel → ℕ
level_index low = 0
level_index medium = 1
level_index high = 2
level_index ultra = 3

pub level_index_iff :
    (a b : LogicalLevel) → (nat_beq (level_index a) (level_index b) ≡ true) ↔ (a ≡ b)
level_index_iff a b = (λ h. ground arith, λ h. ground arith)

instance abbrev pub level_eq : Eq LogicalLevel
level_eq = record {
  beq = λ a b. nat_beq (level_index a) (level_index b);
  beq_iff = level_index_iff;
}

abbrev pub level_values : Dict String LogicalLevel
level_values = ("low", low) ∷ ("medium", medium) ∷ ("high", high) ∷ ("ultra", ultra) ∷ []

-- The field validators: `ValueError`s, which pydantic reports together.
validate_runtime : String → Bool
validate_runtime value = value == "codex" || value == "fake"

has_empty_entry : Dict String (Dict LogicalLevel ModelMapping) → Bool
has_empty_entry [] = false
has_empty_entry ((profile, []) ∷ rest) = true
has_empty_entry ((profile, _ ∷ _) ∷ rest) = if is_empty profile then true else has_empty_entry rest

validate_profiles : Dict String (Dict LogicalLevel ModelMapping) → Bool
unfolding has_empty_entry
validate_profiles [] = false
validate_profiles (p ∷ ps) = not (has_empty_entry (p ∷ ps))

-- The first loop of `model_post_init`: a custom profile needs a specification.
unfoldable pub require_specs :
    Dict String ProfileConfig → Dict String (Dict LogicalLevel ModelMapping) → Py (Unit {0})
require_specs specs [] = ok tt
require_specs specs ((profile, levels) ∷ rest) = do
  raise_if (not (has_key profile default_profile_specs) && not (has_key profile specs))
      (error_at configuration (concat ("profile_specs." ∷ profile ∷ [])))
  require_specs specs rest

at_lifecycle : String → String
at_lifecycle profile = concat ("profile_specs." ∷ profile ∷ ".lifecycle" ∷ [])

at_context : String → String
at_context profile = concat ("profile_specs." ∷ profile ∷ ".context_policy" ∷ [])

unfoldable pub external_not_ephemeral : ProfileConfig → Bool
external_not_ephemeral s = elim s.context_policy [
  | ContextPolicy.external ↦ elim s.lifecycle [ LifecycleMode.ephemeral ↦ false | _ ↦ true ]
  | _ ↦ false
]

unfoldable pub hybrid_not_persistent : ProfileConfig → Bool
hybrid_not_persistent s = elim s.context_policy [
  | ContextPolicy.hybrid ↦ elim s.lifecycle [ LifecycleMode.persistent ↦ false | _ ↦ true ]
  | _ ↦ false
]

unfoldable pub explicit_lifecycle : ProfileConfig → Bool
explicit_lifecycle s = elim s.lifecycle [ LifecycleMode.explicit ↦ true | _ ↦ false ]

unfoldable pub explicit_context : ProfileConfig → Bool
explicit_context s = elim s.context_policy [ ContextPolicy.explicit ↦ true | _ ↦ false ]

-- The body of the second loop.
unfoldable pub check_spec :
    Dict String (Dict LogicalLevel ModelMapping) → String → ProfileConfig → Py (Unit {0})
unfolding at_lifecycle at_context external_not_ephemeral hybrid_not_persistent explicit_lifecycle
    explicit_context
check_spec profiles profile spec = do
  raise_if (has_key profile default_profile_specs) value_error
  raise_if (not (has_key profile profiles))
      (error_at configuration (concat ("profiles." ∷ profile ∷ [])))
  raise_if (external_not_ephemeral spec) (error_at configuration (at_lifecycle profile))
  raise_if (hybrid_not_persistent spec) (error_at configuration (at_lifecycle profile))
  raise_if (explicit_lifecycle spec) (error_at configuration (at_lifecycle profile))
  raise_if (explicit_context spec) (error_at configuration (at_context profile))

unfoldable pub check_specs :
    Dict String (Dict LogicalLevel ModelMapping) → Dict String ProfileConfig → Py (Unit {0})
check_specs profiles [] = ok tt
check_specs profiles ((profile, spec) ∷ rest) = do
  check_spec profiles profile spec
  check_specs profiles rest

unfoldable pub model_post_init : RuntimeConfigV1 → Py RuntimeConfigV1
model_post_init c = do
  require_specs c.profile_specs c.profiles
  check_specs c.profiles c.profile_specs
  ok c

-- `RuntimeConfigV1(...)` on values of the declared types.
unfoldable pub new_runtime_config : RuntimeConfigV1 → Py RuntimeConfigV1
unfolding validate_runtime validate_profiles
new_runtime_config c = do
  raise_if (not (validate_runtime c.runtime && validate_profiles c.profiles)) value_error
  model_post_init c

-- The handler of `KeyError` and `ValueError` in `lookup`.
or_no_mapping : String → Option ModelMapping → Py ModelMapping
or_no_mapping path none = raise (error_at configuration path)
or_no_mapping path (some m) = ok m

lookup_level : Option (Dict LogicalLevel ModelMapping) → Option LogicalLevel → Option ModelMapping
lookup_level none level = none
lookup_level (some levels) none = none
lookup_level (some levels) (some level) = lookup level levels

unfoldable pub lookup_mapping : RuntimeConfigV1 → String → String → Py ModelMapping
unfolding or_no_mapping lookup_level
lookup_mapping c profile level =
    or_no_mapping (concat ("profiles." ∷ profile ∷ "." ∷ level ∷ []))
      (lookup_level (lookup profile c.profiles) (lookup level level_values))

custom_spec : String → Option ProfileConfig → Py ProfileSpec
custom_spec profile none = raise (error_at configuration (concat ("profiles." ∷ profile ∷ [])))
custom_spec profile (some spec) = ok (to_spec spec)

builtin_or_custom : RuntimeConfigV1 → String → Option ProfileSpec → Py ProfileSpec
unfolding custom_spec
builtin_or_custom c profile none = custom_spec profile (lookup profile c.profile_specs)
builtin_or_custom c profile (some spec) = ok spec

unfoldable pub profile_spec : RuntimeConfigV1 → String → Py ProfileSpec
unfolding builtin_or_custom
profile_spec c profile = builtin_or_custom c profile (lookup profile default_profile_specs)
