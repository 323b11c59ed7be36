-- ===== src/Observability/Projection.antt =====
-- observability/bus.py, `_project_value` and `_project_metadata`: what an observer is shown of a value. A
-- pydantic model is the mapping that it dumps to.
pub mod Clean
pub mod Safety
use Prim.Native.Char.{code}
use Prim.Native.String.{String}
use proteo_runtime.Prelude.{
  ℕ, Bool, true, false, not, ◌&&◌, ◌||◌, nat_beq, Option, none, some, List, [], ◌∷◌, map, any, ◌==◌,
  string_eq, if◌then◌else◌,
}
use proteo_runtime.Tools.Values.{
  Value, none_value, bool_value, int_value, float_value, str_value, dict_value, proxy_value,
  list_value, tuple_value, set_value, frozenset_value, object_value, Items, nil, cons, Entries, end,
  entry, Key, str_key, other_key,
}
use proteo_runtime.Tools.Values.Mapping.{find, put, is_present}
use proteo_runtime.Observability.Failures.{PayloadMode, disabled, metadata_only, redacted, full}
use proteo_runtime.Observability.Keys.{
  Python, append, correlated, ends_with, hints_secret, hints_sensitive, hints_session, is_excluded,
  is_metadata_only, is_redacted_mode, is_secret_key, is_sensitive, is_session_key, is_shown,
  key_name, normal_key, placeholder, redaction, scalar, session_correlation_id, split, starts_with,
  underscored,
}

-- `_project_value`
unfoldable mutual
  unfolding scalar

  pub project_value : Python → PayloadMode → Option String → Value → Value
  project_value p m hint (str_value s) =
      if hints_secret p hint
      then redaction
      else if hints_session p hint
      then correlated p s
      else if is_redacted_mode m
      then redaction
      else str_value (p.scrub s)
  project_value p m hint (dict_value es) =
      let shown = project_entries p m es end in
      if hints_secret p hint then redaction else proxy_value shown
  project_value p m hint (proxy_value es) =
      let shown = project_entries p m es end in
      if hints_secret p hint then redaction else proxy_value shown
  project_value p m hint (list_value xs) =
      let shown = project_items p m xs in
      if hints_secret p hint then redaction else tuple_value shown
  project_value p m hint (tuple_value xs) =
      let shown = project_items p m xs in
      if hints_secret p hint then redaction else tuple_value shown
  project_value p m hint (set_value xs) =
      let shown = project_items p m xs in
      if hints_secret p hint then redaction else tuple_value shown
  project_value p m hint (frozenset_value xs) =
      let shown = project_items p m xs in
      if hints_secret p hint then redaction else tuple_value shown
  project_value p m hint none_value = if hints_secret p hint then redaction else none_value
  project_value p m hint (bool_value b) =
      if hints_secret p hint then redaction else scalar m "bool" (bool_value b)
  project_value p m hint (int_value sign n) =
      if hints_secret p hint then redaction else scalar m "int" (int_value sign n)
  project_value p m hint (float_value bits) =
      if hints_secret p hint then redaction else scalar m "float" (float_value bits)
  project_value p m hint (object_value n) =
      if hints_secret p hint then redaction else placeholder (p.type_name n)

  pub project_items : Python → PayloadMode → Items → Items
  project_items p m nil = nil
  project_items p m (cons x xs) = cons (project_value p m none x) (project_items p m xs)

  -- The comprehension over a mapping; `done` is what it has built.
  pub project_entries : Python → PayloadMode → Entries → Entries → Entries
  project_entries p m end done = done
  project_entries p m (entry k v es) done =
      let name = key_name p k in
      project_entries p m es
        (if is_shown p m name then put name (project_value p m (some name) v) done else done)

-- The guard of `_project_metadata`.
unfoldable pub is_withheld : Python → String → Bool
is_withheld p k = is_sensitive (normal_key p k) || is_excluded (normal_key p k) || is_secret_key p k

-- `_project_metadata` where observers are shown metadata only.
unfoldable pub operational_metadata : Python → Entries → Entries → Entries
operational_metadata p end done = done
operational_metadata p (entry k v es) done =
    let name = key_name p k in
    operational_metadata p es (
      if is_withheld p name
      then done
      else put name (project_value p metadata_only (some name) v) done)

-- The tests of a `key_hint` in `_project_redacted_metadata_value`; `plain` is what it gives without one.
unfoldable pub redact_hinted : Python → Option String → Value → Value → Value
redact_hinted p hint v plain =
    if hints_secret p hint
    then redaction
    else if hints_sensitive p hint
    then project_value p redacted hint v
    else plain

-- `_project_redacted_metadata_value` behind those tests, and `_project_redacted_metadata`
unfoldable mutual
  pub redact_plain : Python → Option String → Value → Value
  redact_plain p hint (str_value s) =
      if hints_session p hint then correlated p s else str_value (p.scrub s)
  redact_plain p hint (dict_value es) = proxy_value (redact_entries p es end)
  redact_plain p hint (proxy_value es) = proxy_value (redact_entries p es end)
  redact_plain p hint (list_value xs) = tuple_value (redact_items p xs)
  redact_plain p hint (tuple_value xs) = tuple_value (redact_items p xs)
  redact_plain p hint (set_value xs) = tuple_value (redact_items p xs)
  redact_plain p hint (frozenset_value xs) = tuple_value (redact_items p xs)
  redact_plain p hint (object_value n) = placeholder (p.type_name n)
  redact_plain p hint v = v

  pub redact_items : Python → Items → Items
  redact_items p nil = nil
  redact_items p (cons x xs) =
      cons (redact_hinted p none x (redact_plain p none x)) (redact_items p xs)

  pub redact_entries : Python → Entries → Entries → Entries
  redact_entries p end done = done
  redact_entries p (entry k v es) done =
      let name = key_name p k in
      redact_entries p es (
        if is_excluded (normal_key p name)
        then done
        else put name (redact_hinted p (some name) v (redact_plain p (some name) v)) done)

-- `_project_metadata`; nothing is projected for a disabled observer.
unfoldable pub project_metadata : Python → PayloadMode → Entries → Value
project_metadata p full es = project_value p full none (dict_value es)
project_metadata p redacted es = proxy_value (redact_entries p es end)
project_metadata p m es = proxy_value (operational_metadata p es end)
