-- ===== src/Codex/Schema.antt =====
-- providers/codex/_structured.py, `_normalize_sdk_schema`: a JSON schema becomes one that the SDK accepts as
-- strict. A schema is a JSON value.
pub mod Strict
pub mod Normal
pub mod Normalized
use proteo_runtime.Prelude.{
  ℕ, String, Bool, true, false, ◌&&◌, ◌||◌, Option, none, some, ◌==◌, string_eq, if◌then◌else◌,
}
use proteo_runtime.Prelude.Result.{ok, raise, raise_if, ◌>>=◌, ◌>>◌}
use proteo_runtime.Tools.Values.Mapping.{find, put, is_present}
use proteo_runtime.Core.Errors.{Py, type_error}
use proteo_runtime.Tools.Values.{
  Key, str_key, other_key, Value, none_value, bool_value, int_value, float_value, str_value,
  dict_value, proxy_value, list_value, tuple_value, set_value, frozenset_value, object_value, Items,
  nil, cons, Entries, end, entry,
}

-- `str(key)`; `str` is that of a key which is no text.
unfoldable pub text_of_key : (ℕ → String) → Key → String
text_of_key str (str_key s) = s
text_of_key str (other_key n) = str n

unfoldable pub is_text : String → Option Value → Bool
is_text t (some (str_value s)) = s == t
is_text t _ = false

unfoldable pub is_false : Option Value → Bool
is_false (some (bool_value false)) = true
is_false _ = false

unfoldable pub is_object : Option Value → Option Value → Bool
is_object type properties = is_text "object" type || is_present properties

-- Whether `set(items)` has the text, and whether it can be made.
unfoldable pub contains_text : String → Items → Bool
contains_text k nil = false
contains_text k (cons x xs) = if is_text k (some x) then true else contains_text k xs

unfoldable mutual
  pub is_hashable : Value → Bool
  is_hashable (dict_value es) = false
  is_hashable (proxy_value es) = false
  is_hashable (list_value xs) = false
  is_hashable (set_value xs) = false
  is_hashable (tuple_value xs) = all_hashable xs
  is_hashable v = true

  pub all_hashable : Items → Bool
  all_hashable nil = true
  all_hashable (cons x xs) = is_hashable x && all_hashable xs

-- `req.append(k)`
unfoldable pub push : String → Items → Items
push k nil = cons (str_value k) nil
push k (cons x xs) = cons x (push k xs)

-- The loop over the keys of the properties; `seen` is what `req` holds.
unfoldable pub add_required : Entries → Items → Items
add_required end req = req
add_required (entry (str_key k) v es) req =
    add_required es (if contains_text k req then req else push k req)
add_required (entry (other_key n) v es) req = add_required es req

-- The list of required names, of an object with properties.
unfoldable pub required_of : Entries → Option Value → Py Value
required_of properties (some (list_value xs)) =
    if all_hashable xs then ok (list_value (add_required properties xs)) else raise type_error
required_of properties _ = ok (list_value (add_required properties nil))

unfoldable pub require_all : Option Value → Entries → Py Entries
require_all (some (dict_value properties)) es = do
  required ← required_of properties (find "required" es)
  ok (put "required" required es)
require_all _ es =
    if is_text "object" (find "type" es)
    then if is_present (find "required" es) then ok es else ok (put "required" (list_value nil) es)
    else ok es

unfoldable pub deny_additional : Entries → Entries
deny_additional es =
    if is_false (find "additionalProperties" es)
    then es
    else put "additionalProperties" (bool_value false) es

-- The `if is_object` of a visited node.
unfoldable pub close_object : Entries → Py Entries
close_object es =
    if is_object (find "type" es) (find "properties" es)
    then require_all (find "properties" es) (deny_additional es)
    else ok es

-- `visit`; `done` is `normalized` so far.
unfoldable mutual
  pub visit : (ℕ → String) → Value → Py Value
  visit str (dict_value es) = do
    visited ← visit_entries str es end
    closed ← close_object visited
    ok (dict_value closed)
  visit str (list_value xs) = do visited ← visit_items str xs; ok (list_value visited)
  visit str v = ok v

  pub visit_items : (ℕ → String) → Items → Py Items
  visit_items str nil = ok nil
  visit_items str (cons x xs) = do y ← visit str x; ys ← visit_items str xs; ok (cons y ys)

  pub visit_entries : (ℕ → String) → Entries → Entries → Py Entries
  visit_entries str end done = ok done
  visit_entries str (entry k v es) done = elim (text_of_key str k == "default") [
    | true ↦ visit_entries str es done
    | false ↦ (do w ← visit str v; visit_entries str es (put (text_of_key str k) w done))
  ]

-- `_normalize_sdk_schema`
unfoldable pub normalize_sdk_schema : (ℕ → String) → Entries → Py Value
normalize_sdk_schema str schema = visit str (dict_value schema)
