-- ===== src/Tests/Profiles.antt =====
-- The theorems on profiles and configurations, at a configuration with a custom persistent profile.
use proteo_runtime.Prelude.{◌≡◌, refl, ◌↔◌, true, [], ◌∷◌, string_eq}
use proteo_runtime.Prelude.Dict.{lookup, has_key}
use proteo_runtime.Prelude.Result.{ok}
use proteo_runtime.Prelude.Text.{is_empty}
use proteo_runtime.Core.Profiles.{
  low, LifecycleMode, ContextPolicy, HostToolsMode, SecurityPolicy, ProfileSpec,
  default_profile_specs, isolated_spec,
}
use proteo_runtime.Core.Profiles.Boundaries.{model, session, validate, Required, validate-Required}
use proteo_runtime.Config.{
  RuntimeConfigV1, ProfileConfig, level_eq, require_specs, check_spec, check_specs, model_post_init,
  new_runtime_config, profile_spec, lookup_mapping,
}
use proteo_runtime.Config.Lookups.{mapped_profile-profile_spec}

abbrev archive : ProfileConfig
archive = record {
  lifecycle = LifecycleMode.persistent;
  context_policy = ContextPolicy.hybrid;
  security_policy = SecurityPolicy.isolated;
  host_tools = HostToolsMode.disabled;
}

abbrev config : RuntimeConfigV1
config = record {
  runtime = "codex";
  profiles =
      ("brain", (low, record { model = "m"; reasoning_effort = "low" }) ∷ [])
      ∷ ("archive", (low, record { model = "m"; reasoning_effort = "low" }) ∷ [])
      ∷ [];
  profile_specs = ("archive", archive) ∷ [];
}

config_accepted : new_runtime_config config ≡ ok config
unfolding new_runtime_config model_post_init require_specs check_specs check_spec has_key
    default_profile_specs is_empty
config_accepted = refl

config_lookup :
    lookup_mapping config "archive" "low" ≡ ok (record { model = "m"; reasoning_effort = "low" })
unfolding lookup_mapping lookup
config_lookup = refl

archive_mapped : has_key "archive" config.profiles ≡ true
unfolding has_key
archive_mapped = refl

mapped_profile-profile_spec_example : (s : ProfileSpec) × (profile_spec config "archive" ≡ ok s)
mapped_profile-profile_spec_example =
    mapped_profile-profile_spec config "archive" config_accepted archive_mapped

validate-Required_example :
    (validate session (isolated_spec LifecycleMode.persistent ContextPolicy.runtime) "session"
      ≡ ok tt)
    ↔ Required session (isolated_spec LifecycleMode.persistent ContextPolicy.runtime)
validate-Required_example =
    validate-Required session (isolated_spec LifecycleMode.persistent ContextPolicy.runtime)
      "session"
