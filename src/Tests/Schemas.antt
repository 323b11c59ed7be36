-- ===== src/Tests/Schemas.antt =====
-- Runs of the schema normalisation, and its theorem at a nested schema.
use proteo_runtime.Prelude.{ℕ, String, ◌≡◌, refl, true, false, string_eq}
use proteo_runtime.Prelude.Result.{ok}
use proteo_runtime.Tools.Values.{
  Value, none_value, bool_value, str_value, dict_value, list_value, nil, cons, Entries, end, entry,
  str_key,
}
use proteo_runtime.Tools.Values.Mapping.{find, put, is_present}
use proteo_runtime.Codex.Schema.{
  normalize_sdk_schema, visit, visit_entries, visit_items, text_of_key, is_text, is_false,
  is_object, contains_text, is_hashable, all_hashable, push, add_required, required_of, require_all,
  deny_additional, close_object,
}
use proteo_runtime.Codex.Schema.Strict.{is_strict}
use proteo_runtime.Codex.Schema.Normalized.{
  is_sound, sound_entries, sound_items, is_names, normalize_sdk_schema-strict,
}

abbrev str : ℕ → String
str n = "?"

-- { "type": "object", "required": ["b"], "properties": {"a": {"type": "string", "default": null}} }
abbrev nested : Entries
nested = entry (str_key "type") (str_value "object") (
    entry (str_key "required") (list_value (cons (str_value "b") nil)) (
      entry (str_key "properties")
        (dict_value (
          entry (str_key "a")
            (dict_value (
              entry (str_key "type") (str_value "string")
                (entry (str_key "default") none_value end)))
            end))
        end))

nested-is_sound : is_sound str (dict_value nested) ≡ true
unfolding is_sound sound_entries sound_items is_names all_hashable is_hashable text_of_key
nested-is_sound = refl

normalize_sdk_schema-strict_example :
    (w : Value) × (normalize_sdk_schema str nested ≡ ok w) × (is_strict w ≡ true)
normalize_sdk_schema-strict_example = normalize_sdk_schema-strict str nested nested-is_sound

-- { "properties": {"default": {"type": "string"}} }: a property that is named like the keyword is lost.
abbrev property_default : Entries
property_default =
    entry (str_key "properties")
      (dict_value (
        entry (str_key "default") (dict_value (entry (str_key "type") (str_value "string") end))
          end))
      end

normalize-property_default :
    normalize_sdk_schema str property_default
    ≡ ok (
        dict_value (
          entry (str_key "properties") (dict_value end) (
            entry
              (str_key "additionalProperties")
              (bool_value false)
              (entry (str_key "required") (list_value nil) end))))
unfolding normalize_sdk_schema visit visit_entries visit_items find put text_of_key is_text is_false
    is_present is_object contains_text is_hashable all_hashable push add_required required_of
    require_all deny_additional close_object
normalize-property_default = refl

-- { "properties": {"properties": {"type": "string"}} }: the map of properties is closed like a schema, and
-- its parent requires the keywords as names.
abbrev property_properties : Entries
property_properties =
    entry (str_key "properties")
      (dict_value (
        entry (str_key "properties") (dict_value (entry (str_key "type") (str_value "string") end))
          end))
      end

normalize-property_properties :
    normalize_sdk_schema str property_properties
    ≡ ok (
        dict_value (
          entry
            (str_key "properties")
            (dict_value (
              entry
                (str_key "properties")
                (dict_value (entry (str_key "type") (str_value "string") end))
                (entry
                  (str_key "additionalProperties")
                  (bool_value false)
                  (entry (str_key "required") (list_value (cons (str_value "type") nil)) end))))
            (entry (str_key "additionalProperties") (bool_value false) (
              entry
                (str_key "required")
                (list_value (
                  cons
                    (str_value "properties")
                    (cons (str_value "additionalProperties") (cons (str_value "required") nil))))
                end))))
unfolding normalize_sdk_schema visit visit_entries visit_items find put text_of_key is_text is_false
    is_present is_object contains_text is_hashable all_hashable push add_required required_of
    require_all deny_additional close_object
normalize-property_properties = refl
