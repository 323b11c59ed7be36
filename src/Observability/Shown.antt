-- ===== src/Observability/Shown.antt =====
-- observability/bus.py, `_project_event`: what an observer is shown of an event.
pub mod Privacy
use Prim.Native.Char.{code}
use Prim.Native.String.{String}
use proteo_runtime.Prelude.{
  ℕ, Bool, true, false, not, ◌&&◌, ◌||◌, nat_beq, Option, none, some, List, [], ◌∷◌, map, any, ◌==◌,
  string_eq, if◌then◌else◌,
}
use proteo_runtime.Tools.Values.{
  Value, none_value, bool_value, int_value, float_value, str_value, dict_value, proxy_value,
  list_value, tuple_value, set_value, frozenset_value, object_value, Items, nil, cons, Entries, end,
  entry, Key, str_key, other_key,
}
use proteo_runtime.Tools.Values.Mapping.{find, put, is_present}
use proteo_runtime.Observability.Failures.{PayloadMode, disabled, metadata_only, redacted, full}
use proteo_runtime.Observability.Keys.{
  Python, append, correlated, ends_with, hints_secret, hints_sensitive, hints_session, is_excluded,
  is_metadata_only, is_redacted_mode, is_secret_key, is_sensitive, is_session_key, is_shown,
  key_name, normal_key, placeholder, redaction, scalar, session_correlation_id, split, starts_with,
  underscored,
}
use proteo_runtime.Observability.Projection.{
  is_withheld, operational_metadata, project_entries, project_items, project_metadata,
  project_value, redact_entries, redact_hinted, redact_items, redact_plain,
}

-- A diagnostic, by its message and its details.
pub record ShownDiagnostic : Type 0 where
  pub code : String
  pub message : String
  pub details : Value

-- The result on an event.
pub record ShownResult : Type 0 where
  pub value : Value
  pub raw : Option Value
  pub session_id : Option String
  pub diagnostics : List ShownDiagnostic
  pub summary : Entries

-- An event; `identity` holds what `_project_event` adds to the metadata by `setdefault`, the runtime and
-- the identifiers, and `summary` of a result its model and its usage, in the order of the code.
pub record ShownEvent : Type 0 where
  pub identity : Entries
  pub session_id : Option String
  pub metadata : Entries
  pub payload : Value
  pub result : Option ShownResult

-- `metadata_dict.setdefault(k, v)` for each entry
unfoldable pub set_defaults : Entries → Entries → Entries
set_defaults end es = es
set_defaults (entry (str_key k) v ds) es =
    set_defaults ds (if is_present (find k es) then es else put k v es)
set_defaults (entry (other_key n) v ds) es = set_defaults ds es

is_none : Value → Bool
is_none none_value = true
is_none _ = false

-- The counters of a `usage` mapping in the metadata.
default_counters : List String → Entries → Entries → Entries
unfolding is_none
default_counters [] usage es = es
default_counters (k ∷ ks) usage es = default_counters ks usage (elim (find k usage) [
  | none ↦ es
  | some v ↦ if is_none v then es else set_defaults (entry (str_key k) v end) es
])

flatten_usage : Option Value → Entries → Entries
unfolding default_counters
flatten_usage (some (dict_value usage)) es =
    default_counters
      ("input_tokens" ∷ "cached_input_tokens" ∷ "output_tokens" ∷ "reasoning_tokens"
        ∷ "total_tokens" ∷ "duration_ms" ∷ [])
      usage es
flatten_usage (some (proxy_value usage)) es =
    default_counters
      ("input_tokens" ∷ "cached_input_tokens" ∷ "output_tokens" ∷ "reasoning_tokens"
        ∷ "total_tokens" ∷ "duration_ms" ∷ [])
      usage es
flatten_usage _ es = es

session_entry : Python → Option String → Entries
session_entry p session = elim (session_correlation_id p session) [
  | none ↦ end
  | some id ↦ entry (str_key "proteo.session_id") (str_value id) end
]

summary_of : Option ShownResult → Entries
summary_of none = end
summary_of (some r) = r.summary

-- The metadata before it is projected.
unfoldable pub full_metadata : Python → ShownEvent → Entries
unfolding flatten_usage session_entry summary_of
full_metadata p e =
    let named =
      set_defaults (summary_of e.result)
        (set_defaults (session_entry p e.session_id) (set_defaults e.identity e.metadata)) in
    flatten_usage (find "usage" named) named

-- `_project_diagnostics`
unfoldable pub project_diagnostics :
    Python → PayloadMode → List ShownDiagnostic → List ShownDiagnostic
project_diagnostics p m [] = []
project_diagnostics p m (d ∷ ds) =
    record d { message = p.scrub d.message; details = project_value p m none d.details }
    ∷ project_diagnostics p m ds

unfoldable pub project_result : Python → PayloadMode → ShownResult → ShownResult
project_result p m r = record r {
  raw = none;
  session_id = session_correlation_id p r.session_id;
  diagnostics = project_diagnostics p m r.diagnostics;
  value = project_value p m none r.value;
}

-- An event as it is shown, with its metadata projected.
pub record Projected : Type 0 where
  pub session_id : Option String
  pub metadata : Value
  pub payload : Value
  pub result : Option ShownResult

-- `_project_event`. The constructor that `replace` runs again freezes the mappings, which are values here,
-- and its refusal of secret-shaped keys, which the event itself has passed, is left out, as is an error
-- of the digest.
unfoldable pub project_event : Python → PayloadMode → ShownEvent → Projected
unfolding project_result
project_event p m e = record {
  session_id = session_correlation_id p e.session_id;
  metadata = project_metadata p m (full_metadata p e);
  payload = (if is_metadata_only m then proxy_value end else project_value p m none e.payload);
  result =
      (if is_metadata_only m
        then none
        else elim e.result [ none ↦ none | some r ↦ some (project_result p m r) ]);
}
