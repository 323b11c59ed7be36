-- ===== src/Observability/Projection/Clean.antt =====
-- What no projected value holds (observability/bus.py, `_project_value`).
use proteo_runtime.Prelude.{
  String, Bool, true, false, not, ◌&&◌, ◌||◌, nat_beq_iff, ◌≡◌, refl, ◌∙◌, inl, inr, ◌==◌,
  string_eq, eq_iff, if◌then◌else◌, arith, and_parts, Bool-cases,
}
use proteo_runtime.Tools.Values.{
  Value, none_value, bool_value, int_value, float_value, str_value, dict_value, proxy_value,
  list_value, tuple_value, set_value, frozenset_value, object_value, Items, nil, cons, Entries, end,
  entry, str_key, other_key,
}
use proteo_runtime.Tools.Values.Mapping.{put}
use proteo_runtime.Observability.Failures.{PayloadMode}
use proteo_runtime.Observability.Keys.{
  Python, append, starts_with, normal_key, is_secret_key, is_session_key, session_correlation_id,
  text_or_none, correlated, placeholder, is_redacted_mode, is_shown, redaction, scalar,
}

-- A text that tells nothing of the value that it stands for.
unfoldable pub is_masked : String → Bool
is_masked s = (s == "[REDACTED]") || (starts_with "<" s || starts_with "proteo.session:" s)

unfoldable pub is_redaction : Value → Bool
is_redaction (str_value s) = s == "[REDACTED]"
is_redaction _ = false

-- A session is named by its correlation, if by a text at all.
unfoldable pub is_correlation : Value → Bool
is_correlation (str_value s) = starts_with "<" s || starts_with "proteo.session:" s
is_correlation _ = true

unfoldable pub is_guarded : Python → String → Value → Bool
is_guarded p k v =
    if is_secret_key p k
    then is_redaction v
    else if is_session_key (normal_key p k)
    then is_correlation v
    else true

-- Scalars, read-only mappings and tuples: no mapping shows a hidden key, the value of a secret or of a
-- session is guarded, and where payloads are redacted there is no number and no text but a mask.
unfoldable mutual
  pub is_clean : Python → PayloadMode → Value → Bool
  is_clean p m none_value = true
  is_clean p m (bool_value b) = not (is_redacted_mode m)
  is_clean p m (int_value sign n) = not (is_redacted_mode m)
  is_clean p m (float_value bits) = not (is_redacted_mode m)
  is_clean p m (str_value s) = not (is_redacted_mode m) || is_masked s
  is_clean p m (proxy_value es) = clean_entries p m es
  is_clean p m (tuple_value xs) = clean_items p m xs
  is_clean p m (dict_value es) = false
  is_clean p m (list_value xs) = false
  is_clean p m (set_value xs) = false
  is_clean p m (frozenset_value xs) = false
  is_clean p m (object_value n) = false

  pub clean_items : Python → PayloadMode → Items → Bool
  clean_items p m nil = true
  clean_items p m (cons x xs) = is_clean p m x && clean_items p m xs

  pub clean_entries : Python → PayloadMode → Entries → Bool
  clean_entries p m end = true
  clean_entries p m (entry (str_key k) v es) =
      is_shown p m k && (is_guarded p k v && (is_clean p m v && clean_entries p m es))
  clean_entries p m (entry (other_key n) v es) = false

pub starts_with-append : (s t : String) → starts_with s (append s t) ≡ true
unfolding starts_with append
starts_with-append String.[] t = refl
starts_with-append (String.◌∷◌ c s) t = rw ((nat_beq_iff _ _).1 refl) (starts_with-append s t)

is_clean-mask :
    (p : Python) (m : PayloadMode) (s : String)
    → is_masked s ≡ true
    → is_clean p m (str_value s) ≡ true
unfolding is_clean
is_clean-mask p m s h = ground (arith, h)

is_masked-placeholder : (name : String) → is_masked (append "<" (append name ">")) ≡ true
unfolding is_masked
is_masked-placeholder name = ground (arith, starts_with-append "<" (append name ">"))

pub is_clean-placeholder :
    (p : Python) (m : PayloadMode) (name : String) → is_clean p m (placeholder name) ≡ true
unfolding placeholder
is_clean-placeholder p m name = is_clean-mask p m _ (is_masked-placeholder name)

pub is_clean-redaction : (p : Python) (m : PayloadMode) → is_clean p m redaction ≡ true
unfolding is_masked
is_clean-redaction p m = is_clean-mask p m "[REDACTED]" refl

is_masked-prefix : (s : String) → starts_with "proteo.session:" s ≡ true → is_masked s ≡ true
unfolding is_masked
is_masked-prefix s h = ground (arith, h)

pub none-clean : (p : Python) (m : PayloadMode) → is_clean p m none_value ≡ true
unfolding is_clean
none-clean p m = refl

shown-clean :
    (p : Python) (m : PayloadMode) (s : String)
    → is_redacted_mode m ≡ false
    → is_clean p m (str_value s) ≡ true
unfolding is_clean
shown-clean p m s shown = rw shown refl

-- The correlation of a session is clean, and is one.
pub correlated-clean :
    (p : Python) (m : PayloadMode) (s : String)
    → (is_clean p m (correlated p s) ≡ true) × (is_correlation (correlated p s) ≡ true)
unfolding correlated text_or_none session_correlation_id is_correlation
correlated-clean p m s = elim (Bool-cases (starts_with "proteo.session:" s)) [
  | inl named ↦ rw named (is_clean-mask p m s (is_masked-prefix s named), ground (arith, named))
  | inr raw ↦ elim (Bool-cases (s == "")) [
    | inl empty ↦ rw (raw, empty) (none-clean p m, refl)
    | inr text ↦
        let digest = append "proteo.session:" (p.digest s) in
        let prefix = starts_with-append "proteo.session:" (p.digest s) in
        rw (raw, text)
          (is_clean-mask p m digest (is_masked-prefix digest prefix), ground (arith, prefix))
  ]
]

pub scalar-clean :
    (p : Python) (m : PayloadMode) (name : String) (v : Value)
    → is_clean p m v ≡ not (is_redacted_mode m)
    → is_clean p m (scalar m name v) ≡ true
unfolding scalar
scalar-clean p m name v h = elim (Bool-cases (is_redacted_mode m)) [
  | inl masked ↦ rw masked (is_clean-placeholder p m name)
  | inr shown ↦ rw shown (h ∙ rw shown refl)
]

pub clean-if :
    (p : Python) (m : PayloadMode) (b : Bool) (v w : Value)
    → is_clean p m v ≡ true
    → is_clean p m w ≡ true
    → is_clean p m (if b then v else w) ≡ true
clean-if p m true v w h k = h
clean-if p m false v w h k = k

pub text-clean :
    (p : Python) (m : PayloadMode) (s : String)
    → is_clean p m (if is_redacted_mode m then redaction else str_value (p.scrub s)) ≡ true
text-clean p m s = elim (Bool-cases (is_redacted_mode m)) [
  | inl masked ↦ rw masked (is_clean-redaction p m)
  | inr shown ↦ rw shown (shown-clean p m (p.scrub s) shown)
]

pub clean_entries-put :
    (p : Python) (m : PayloadMode) (k : String) (v : Value) (es : Entries)
    → is_shown p m k ≡ true
    → is_guarded p k v ≡ true
    → is_clean p m v ≡ true
    → clean_entries p m es ≡ true
    → clean_entries p m (put k v es) ≡ true
unfolding clean_entries put
clean_entries-put p m k v end a b c h = rw (a, b, c) refl
clean_entries-put p m k v (entry (other_key n) old es) a b c h = absurd (cc)
clean_entries-put p m k v (entry (str_key j) old es) a b c h =
    let (shown, rest) =
      and_parts (is_shown p m j) (is_guarded p j old && (is_clean p m old && clean_entries p m es))
        h in
    let (guarded, more) =
      and_parts (is_guarded p j old) (is_clean p m old && clean_entries p m es) rest in
    let (first, last) = and_parts (is_clean p m old) (clean_entries p m es) more in
    elim (Bool-cases (j == k)) [
      | inl hit ↦ rw (hit, (eq_iff j k).0 hit) (rw (a, b, c, last) refl)
      | inr miss ↦
          rw miss (rw (shown, guarded, first, clean_entries-put p m k v es a b c last) refl)
    ]

pub hint-if :
    (p : Python) (m : PayloadMode) (b : Bool) (v : Value)
    → is_clean p m v ≡ true
    → is_clean p m (if b then redaction else v) ≡ true
hint-if p m b v h = clean-if p m b redaction v (is_clean-redaction p m) h
