-- ===== src/Observability/Projection/Safety.antt =====
-- The projection of a value is clean (observability/bus.py, `_project_value`).
use proteo_runtime.Prelude.{
  String, true, false, ◌≡◌, refl, Option, none, some, inl, inr, string_eq, arith, Bool-cases,
}
use proteo_runtime.Tools.Values.{
  Value, none_value, bool_value, int_value, float_value, str_value, dict_value, proxy_value,
  list_value, tuple_value, set_value, frozenset_value, object_value, Items, nil, cons, Entries, end,
  entry,
}
use proteo_runtime.Observability.Failures.{PayloadMode}
use proteo_runtime.Observability.Keys.{
  Python, append, normal_key, is_secret_key, is_session_key, hints_secret, hints_session,
  placeholder, is_redacted_mode, is_shown, redaction, scalar, key_name,
}
use proteo_runtime.Observability.Projection.{project_value, project_items, project_entries}
use proteo_runtime.Observability.Projection.Clean.{
  starts_with-append, is_redaction, is_correlation, is_guarded, is_clean, clean_items,
  clean_entries, is_clean-placeholder, correlated-clean, scalar-clean, clean-if, text-clean,
  clean_entries-put, hint-if,
}

secret-redaction :
    (p : Python) (m : PayloadMode) (hint : Option String) (v : Value)
    → hints_secret p hint ≡ true
    → project_value p m hint v ≡ redaction
unfolding project_value
secret-redaction p m hint (str_value s) h = rw h refl
secret-redaction p m hint _ h = rw h refl

placeholder-correlation : (name : String) → is_correlation (placeholder name) ≡ true
unfolding is_correlation placeholder
placeholder-correlation name = ground (arith, starts_with-append "<" (append name ">"))

scalar-correlation :
    (m : PayloadMode) (name : String) (v : Value)
    → is_correlation v ≡ true
    → is_correlation (scalar m name v) ≡ true
unfolding scalar
scalar-correlation m name v h = elim (Bool-cases (is_redacted_mode m)) [
  | inl masked ↦ rw masked (placeholder-correlation name)
  | inr shown ↦ rw shown h
]

session-correlation :
    (p : Python) (m : PayloadMode) (hint : Option String) (v : Value)
    → hints_secret p hint ≡ false
    → hints_session p hint ≡ true
    → is_correlation (project_value p m hint v) ≡ true
unfolding project_value is_correlation
session-correlation p m hint (str_value s) h k = rw (h, k) (correlated-clean p m s).1
session-correlation p m hint (bool_value b) h k =
    rw h (scalar-correlation m "bool" (bool_value b) refl)
session-correlation p m hint (int_value b n) h k =
    rw h (scalar-correlation m "int" (int_value b n) refl)
session-correlation p m hint (float_value n) h k =
    rw h (scalar-correlation m "float" (float_value n) refl)
session-correlation p m hint (object_value n) h k = rw h (placeholder-correlation (p.type_name n))
session-correlation p m hint _ h k = rw h refl

-- What stands under a key is guarded as the key asks.
pub project_value-guarded :
    (p : Python) (m : PayloadMode) (k : String) (v : Value)
    → is_guarded p k (project_value p m (some k) v) ≡ true
unfolding is_guarded hints_secret hints_session is_redaction
project_value-guarded p m k v = elim (Bool-cases (is_secret_key p k)) [
  | inl secret ↦ rw (secret, secret-redaction p m (some k) v secret) refl
  | inr plain ↦ elim (Bool-cases (is_session_key (normal_key p k))) [
    | inl session ↦ rw (plain, session) (session-correlation p m (some k) v plain session)
    | inr other ↦ rw (plain, other) refl
  ]
]

mutual
  unfolding project_value project_items project_entries is_clean clean_items clean_entries

  pub value-clean :
      (p : Python) (m : PayloadMode) (hint : Option String) (v : Value)
      → is_clean p m (project_value p m hint v) ≡ true
  value-clean p m hint (str_value s) =
      hint-if p m (hints_secret p hint) _
        (clean-if p m (hints_session p hint) _ _ (correlated-clean p m s).0 (text-clean p m s))
  value-clean p m hint none_value = hint-if p m (hints_secret p hint) _ refl
  value-clean p m hint (bool_value b) =
      hint-if p m (hints_secret p hint) _ (scalar-clean p m "bool" (bool_value b) refl)
  value-clean p m hint (int_value b n) =
      hint-if p m (hints_secret p hint) _ (scalar-clean p m "int" (int_value b n) refl)
  value-clean p m hint (float_value n) =
      hint-if p m (hints_secret p hint) _ (scalar-clean p m "float" (float_value n) refl)
  value-clean p m hint (dict_value es) =
      hint-if p m (hints_secret p hint) _ (entries-clean p m es end refl)
  value-clean p m hint (proxy_value es) =
      hint-if p m (hints_secret p hint) _ (entries-clean p m es end refl)
  value-clean p m hint (list_value xs) = hint-if p m (hints_secret p hint) _ (items-clean p m xs)
  value-clean p m hint (tuple_value xs) = hint-if p m (hints_secret p hint) _ (items-clean p m xs)
  value-clean p m hint (set_value xs) = hint-if p m (hints_secret p hint) _ (items-clean p m xs)
  value-clean p m hint (frozenset_value xs) =
      hint-if p m (hints_secret p hint) _ (items-clean p m xs)
  value-clean p m hint (object_value n) =
      hint-if p m (hints_secret p hint) _ (is_clean-placeholder p m (p.type_name n))

  items-clean :
      (p : Python) (m : PayloadMode) (xs : Items) → clean_items p m (project_items p m xs) ≡ true
  items-clean p m nil = refl
  items-clean p m (cons x xs) = rw (value-clean p m none x, items-clean p m xs) refl

  entries-clean :
      (p : Python) (m : PayloadMode) (es done : Entries)
      → clean_entries p m done ≡ true
      → clean_entries p m (project_entries p m es done) ≡ true
  entries-clean p m end done h = h
  entries-clean p m (entry k v es) done h = elim (Bool-cases (is_shown p m (key_name p k))) [
    | inl shown ↦ rw shown (
        entries-clean p m es _ (
          clean_entries-put p m (key_name p k) _ done shown
            (project_value-guarded p m (key_name p k) v) (value-clean p m (some (key_name p k)) v)
            h))
    | inr hidden ↦ rw hidden (entries-clean p m es done h)
  ]
