-- ===== src/Tests/Projections.antt =====
-- The theorem on projected events, at an event with a secret, and a run of the projection.
use proteo_runtime.Prelude.{◌≡◌, refl, true, false, none, some, string_eq}
use proteo_runtime.Tools.Values.{
  str_value, int_value, dict_value, proxy_value, Entries, end, entry, str_key,
}
use proteo_runtime.Tools.Values.Mapping.{put}
use proteo_runtime.Observability.Failures.{full, is_disabled}
use proteo_runtime.Observability.Keys.{
  Python, append, starts_with, ends_with, underscored, split, one_of, normal_key, is_secret_key,
  is_sensitive, is_excluded, is_session_key, hints_secret, hints_session, session_correlation_id,
  text_or_none, correlated, is_redacted_mode, is_metadata_only, scalar, is_shown, key_name,
}
use proteo_runtime.Observability.Projection.{project_value, project_entries}
use proteo_runtime.Observability.Shown.{ShownEvent, project_event}
use proteo_runtime.Observability.Shown.Privacy.{is_private, project_event-is_private}

abbrev python : Python
python = record {
  casefold = λ s. s;
  scrub = λ s. s;
  digest = λ s. "0f";
  key_str = λ n. "?";
  type_name = λ n. "object";
}

abbrev secrets : Entries
secrets = entry (str_key "access-token") (str_value "abc") (
    entry (str_key "session_id") (str_value "prt1.x")
      (entry (str_key "count") (int_value false 3) (entry (str_key "headers") (str_value "h") end)))

abbrev event : ShownEvent
event = record {
  identity = entry (str_key "proteo.runtime") (str_value "codex") end;
  session_id = some "prt1.x";
  metadata = secrets;
  payload = dict_value secrets;
  result = none;
}

full-enabled : is_disabled full ≡ false
unfolding is_disabled
full-enabled = refl

project_event-is_private_example : is_private python full (project_event python full event) ≡ true
project_event-is_private_example = project_event-is_private python full event full-enabled

project_value-secrets :
    project_value python full none (dict_value secrets)
    ≡ proxy_value (
        entry (str_key "access-token") (str_value "[REDACTED]") (
          entry
            (str_key "session_id")
            (str_value "proteo.session:0f")
            (entry (str_key "count") (int_value false 3) end)))
unfolding project_value project_entries put append starts_with ends_with underscored split one_of
    normal_key is_secret_key is_sensitive is_excluded is_session_key hints_secret hints_session
    session_correlation_id text_or_none correlated is_redacted_mode is_metadata_only scalar is_shown
    key_name
project_value-secrets = refl
