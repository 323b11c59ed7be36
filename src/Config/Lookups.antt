-- ===== src/Config/Lookups.antt =====
-- What an accepted configuration (config/models.py) promises to the lookups and to the factories of
-- a runtime (core/profiles.py).
use proteo_runtime.Prelude.{
  String, ◌≡◌, true, none, some, [], ◌∷◌, eq_iff, string_eq, arith, Option-cases, inl, inr, ◌⊎◌,
}
use proteo_runtime.Prelude.Dict.{Dict, lookup, has_key, has_key-lookup}
use proteo_runtime.Prelude.Result.{ok}
use proteo_runtime.Core.Profiles.{
  LogicalLevel, LifecycleMode, ContextPolicy, ProfileSpec, Refusal, use_model, use_task,
  use_session, default_profile_specs,
}
use proteo_runtime.Core.Profiles.Boundaries.{Factory, model, task, session}
use proteo_runtime.Config.{
  RuntimeConfigV1, ProfileConfig, ModelMapping, to_spec, require_specs, check_specs,
  model_post_init, new_runtime_config, profile_spec,
}

new-post_init :
    (c : RuntimeConfigV1) {d : RuntimeConfigV1}
    → new_runtime_config c ≡ ok d
    → (require_specs c.profile_specs c.profiles ≡ ok tt)
      × (check_specs c.profiles c.profile_specs ≡ ok tt)
      × (d ≡ c)
unfolding new_runtime_config model_post_init
new-post_init c h = ground arith

require_specs-has_key :
    (specs : Dict String ProfileConfig) (profiles : Dict String (Dict LogicalLevel ModelMapping))
    (p : String)
    → require_specs specs profiles ≡ ok tt
    → has_key p profiles ≡ true
    → (has_key p default_profile_specs ≡ true) ⊎ (has_key p specs ≡ true)
unfolding require_specs has_key
require_specs-has_key specs [] p h e = absurd (cc)
require_specs-has_key specs ((q, l) ∷ rest) p h e =
    ground (arith, eq_iff q p, require_specs-has_key specs rest p)

-- What `model_post_init` checks of a custom specification.
pub record IsConsistent (s : ProfileConfig) : Type 0 where
  pub external_ephemeral :
      s.context_policy ≡ ContextPolicy.external → s.lifecycle ≡ LifecycleMode.ephemeral
  pub hybrid_persistent :
      s.context_policy ≡ ContextPolicy.hybrid → s.lifecycle ≡ LifecycleMode.persistent
  pub lifecycle_chosen : ¬ (s.lifecycle ≡ LifecycleMode.explicit)
  pub context_chosen : ¬ (s.context_policy ≡ ContextPolicy.explicit)

-- The one factory that a consistent specification fits.
unfoldable pub factory_of : ProfileConfig → Factory
factory_of s = elim s.lifecycle [
  | LifecycleMode.persistent ↦ session
  | _ ↦ elim s.context_policy [ ContextPolicy.runtime ↦ task | _ ↦ model ]
]

-- The factory that a refusal names, if it names one.
abbrev pub Advises : Refusal → Factory → Type 0
Advises r model = r ≡ use_model
Advises r task = r ≡ use_task
Advises r session = r ≡ use_session

has_key-default_lookup :
    (p : String)
    → has_key p default_profile_specs ≡ true
    → (s : ProfileSpec) × (lookup p default_profile_specs ≡ some s)
has_key-default_lookup p h = has_key-lookup p default_profile_specs h

-- In an accepted configuration, every profile that has a model mapping also has a specification:
-- `profile_spec` does not raise on it.
pub mapped_profile-profile_spec :
    (c : RuntimeConfigV1) (p : String)
    → new_runtime_config c ≡ ok c
    → has_key p c.profiles ≡ true
    → (s : ProfileSpec) × (profile_spec c p ≡ ok s)
mapped_profile-profile_spec c p h k =
    elim (require_specs-has_key c.profile_specs c.profiles p (new-post_init c h).0 k) [
      | inl builtin ↦ builtin_found p builtin
      | inr custom ↦ custom_found (Option-cases (lookup p default_profile_specs)) custom
    ]
  where
    builtin_found :
        (q : String)
        → has_key q default_profile_specs ≡ true
        → (s : ProfileSpec) × (profile_spec c q ≡ ok s)
    builtin_found q b =
        let (s, found) = has_key-default_lookup q b in (s, unfold profile_spec in rw found)

    custom_found :
        (lookup p default_profile_specs ≡ none)
          ⊎ ((s : ProfileSpec) × (lookup p default_profile_specs ≡ some s))
        → has_key p c.profile_specs ≡ true
        → (s : ProfileSpec) × (profile_spec c p ≡ ok s)
    custom_found (inl absent) b =
        let (s, found) = has_key-lookup p c.profile_specs b in
        (to_spec s, unfold profile_spec in rw absent (rw found))
    custom_found (inr (s, found)) b = (s, unfold profile_spec in rw found)
