-- ===== src/Codex/Schema/Normalized.antt =====
-- The schemas that `_normalize_sdk_schema` accepts (providers/codex/_structured.py).
use proteo_runtime.Prelude.{
  ℕ, String, Bool, true, false, ◌&&◌, ◌≡◌, refl, sym, Option, some, inl, inr, ◌==◌, string_eq,
  if◌then◌else◌, and_parts, Bool-cases,
}
use proteo_runtime.Prelude.Result.{ok, >>=-eq-ok}
use proteo_runtime.Core.Errors.{Py}
use proteo_runtime.Tools.Values.{
  Value, bool_value, dict_value, list_value, Items, nil, cons, Entries, end, entry,
}
use proteo_runtime.Tools.Values.Mapping.{find, put, is_present, find-put}
use proteo_runtime.Codex.Schema.{
  text_of_key, is_text, is_false, is_object, is_hashable, all_hashable, add_required, required_of,
  require_all, deny_additional, close_object, visit, visit_items, visit_entries,
  normalize_sdk_schema,
}
use proteo_runtime.Codex.Schema.Strict.{is_strict}
use proteo_runtime.Codex.Schema.Normal.{visit-strict}

-- A list of names can be made a set.
unfoldable pub is_names : Value → Bool
is_names (list_value xs) = all_hashable xs
is_names _ = true

-- Every list of required names can be made a set.
unfoldable mutual
  pub is_sound : (ℕ → String) → Value → Bool
  is_sound str (dict_value es) = sound_entries str es
  is_sound str (list_value xs) = sound_items str xs
  is_sound str v = true

  pub sound_items : (ℕ → String) → Items → Bool
  sound_items str nil = true
  sound_items str (cons x xs) = is_sound str x && sound_items str xs

  pub sound_entries : (ℕ → String) → Entries → Bool
  sound_entries str end = true
  sound_entries str (entry k v es) =
      (if text_of_key str k == "required" then is_names v else true)
      && (is_sound str v && sound_entries str es)

visit-hashable : (str : ℕ → String) (v : Value) → is_hashable v ≡ true → visit str v ≡ ok v
unfolding visit is_hashable
visit-hashable str (dict_value es) h = absurd (cc)
visit-hashable str (list_value xs) h = absurd (cc)
visit-hashable str _ h = refl

visit_items-hashable :
    (str : ℕ → String) (xs : Items) → all_hashable xs ≡ true → visit_items str xs ≡ ok xs
unfolding visit_items all_hashable
visit_items-hashable str nil h = refl
visit_items-hashable str (cons x xs) h =
    let (first, rest) = and_parts (is_hashable x) (all_hashable xs) h in
    rw (visit-hashable str x first) (rw (visit_items-hashable str xs rest) refl)

ok-eq : {A : Type 0} {a b : A} → ◌≡◌ {A = Py A} (ok a) (ok b) → a ≡ b
ok-eq h = cc

is_names-visit :
    (str : ℕ → String) (v w : Value) → is_names v ≡ true → visit str v ≡ ok w → is_names w ≡ true
unfolding visit is_names
is_names-visit str (dict_value es) w h made =
    let (visited, first, rest) = >>=-eq-ok (visit_entries str es end) _ made in
    let (closed, second, last) = >>=-eq-ok (close_object visited) _ rest in
    rw (sym (ok-eq last)) refl
is_names-visit str (list_value xs) w h made =
    let same = rw (visit_items-hashable str xs h) at made in rw (sym (ok-eq same)) h
is_names-visit str _ w h made = rw (sym (ok-eq made)) refl

-- The required names that a node has so far can be made a set.
abbrev Named : Entries → Type 0
Named es = (v : Value) → find "required" es ≡ some v → is_names v ≡ true

required_of-returns :
    (properties : Entries) (o : Option Value)
    → ((v : Value) → o ≡ some v → is_names v ≡ true)
    → (q : Value) × (required_of properties o ≡ ok q)
unfolding required_of is_names
required_of-returns properties (some (list_value xs)) h =
    (list_value (add_required properties xs), rw (h (list_value xs) refl) refl)
required_of-returns properties _ h = (list_value (add_required properties nil), refl)

bare-returns :
    (typed listed : Bool) (es fs : Entries)
    → (r : Entries) × ◌≡◌ {A = Py Entries}
        (if typed then if listed then ok es else ok fs else ok es)
        (ok r)
bare-returns true true es fs = (es, refl)
bare-returns true false es fs = (fs, refl)
bare-returns false listed es fs = (es, refl)

require_all-returns :
    (properties : Option Value) (es : Entries)
    → Named es
    → (r : Entries) × (require_all properties es ≡ ok r)
unfolding require_all
require_all-returns (some (dict_value ps)) es h =
    let (q, made) = required_of-returns ps (find "required" es) h in
    (put "required" q es, rw made refl)
require_all-returns _ es h =
    bare-returns (is_text "object" (find "type" es)) (is_present (find "required" es)) es
      (put "required" (list_value nil) es)

Named-deny : (es : Entries) → Named es → Named (deny_additional es)
unfolding deny_additional
Named-deny es h = elim (Bool-cases (is_false (find "additionalProperties" es))) [
  | inl denied ↦ rw denied h
  | inr open_node ↦ rw open_node (λ v found.
      h v (rw (find-put "additionalProperties" "required" (bool_value false) es) at found))
]

close_object-returns : (es : Entries) → Named es → (r : Entries) × (close_object es ≡ ok r)
unfolding close_object
close_object-returns es h = elim (Bool-cases (is_object (find "type" es) (find "properties" es))) [
  | inl node ↦
      (let (r, made) =
          require_all-returns (find "properties" es) (deny_additional es) (Named-deny es h) in
        (r, rw node made))
  | inr plain ↦ (es, rw plain refl)
]

Named-put :
    (k : String) (w : Value) (es : Entries)
    → ((k == "required") ≡ true → is_names w ≡ true)
    → Named es
    → Named (put k w es)
Named-put k w es named h = λ v found. elim (Bool-cases (k == "required")) [
  | inl hit ↦
      (let same : some w ≡ some v = rw (find-put k "required" w es, hit) at found in
        let eq : w ≡ v = cc in rw (sym eq) (named hit))
  | inr miss ↦ h v (rw (find-put k "required" w es, miss) at found)
]

Named-end : Named end
unfolding find
Named-end v found = absurd (cc)

if-true : (b c : Bool) → (if b then c else true) ≡ true → b ≡ true → c ≡ true
if-true true c h hit = h
if-true false c h hit = absurd (cc)

mutual
  unfolding visit visit_items visit_entries is_sound sound_items sound_entries

  visit-returns :
      (str : ℕ → String) (v : Value) → is_sound str v ≡ true → (w : Value) × (visit str v ≡ ok w)
  visit-returns str (dict_value es) h =
      let (visited, first, named) = visit_entries-returns str es end h Named-end in
      let (closed, second) = close_object-returns visited named in
      (dict_value closed, rw first (rw second refl))
  visit-returns str (list_value xs) h =
      let (ys, made) = visit_items-returns str xs h in (list_value ys, rw made refl)
  visit-returns str _ h = (_, refl)

  visit_items-returns :
      (str : ℕ → String) (xs : Items)
      → sound_items str xs ≡ true
      → (ys : Items) × (visit_items str xs ≡ ok ys)
  visit_items-returns str nil h = (nil, refl)
  visit_items-returns str (cons x xs) h =
      let (first, rest) = and_parts (is_sound str x) (sound_items str xs) h in
      let (y, one) = visit-returns str x first in
      let (ys, more) = visit_items-returns str xs rest in (cons y ys, rw one (rw more refl))

  visit_entries-returns :
      (str : ℕ → String) (es done : Entries)
      → sound_entries str es ≡ true
      → Named done
      → (r : Entries) × (visit_entries str es done ≡ ok r) × Named r
  visit_entries-returns str end done h named = (done, refl, named)
  visit_entries-returns str (entry k v es) done h named =
      let key = text_of_key str k in
      let (here, both) =
        and_parts (if key == "required" then is_names v else true)
          (is_sound str v && sound_entries str es) h in
      let (inside, rest) = and_parts (is_sound str v) (sound_entries str es) both in
      elim (Bool-cases (key == "default")) [
        | inl dropped ↦
            (let (r, made, kept) = visit_entries-returns str es done rest named in
              (r, rw (visit_entries, dropped) made, kept))
        | inr plain ↦
            (let (w, one) = visit-returns str v inside in
              let (r, made, kept) = visit_entries-returns str es (put key w done) rest (
                Named-put key w done
                  (λ hit.
                    is_names-visit str v w (if-true (key == "required") (is_names v) here hit) one)
                  named) in
              (r, rw (visit_entries, plain, one) made, kept))
      ]

-- A schema whose lists of required names can be made sets is normalised, and the result is strict all the
-- way down: no default is left, every object node forbids additional properties, and every node whose
-- properties are an object requires all of them.
pub normalize_sdk_schema-strict :
    (str : ℕ → String) (schema : Entries)
    → is_sound str (dict_value schema) ≡ true
    → (w : Value) × (normalize_sdk_schema str schema ≡ ok w) × (is_strict w ≡ true)
unfolding normalize_sdk_schema
normalize_sdk_schema-strict str schema h =
    let (w, made) = visit-returns str (dict_value schema) h in
    (w, made, visit-strict str (dict_value schema) w made)
