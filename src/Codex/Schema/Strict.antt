-- ===== src/Codex/Schema/Strict.antt =====
-- What `_normalize_sdk_schema` makes of a schema (providers/codex/_structured.py).
use proteo_runtime.Prelude.{
  String, Bool, true, false, not, ◌&&◌, ◌≡◌, refl, Option, some, inl, inr, ◌==◌, string_eq,
  if◌then◌else◌, arith, and_parts, Bool-cases, eq_iff,
}
use proteo_runtime.Tools.Values.{
  str_key, other_key, Value, dict_value, list_value, Items, nil, cons, Entries, end, entry,
}
use proteo_runtime.Tools.Values.Mapping.{find, put, is_present}
use proteo_runtime.Codex.Schema.{is_text, is_false, is_object, contains_text, push, add_required}

-- The names of properties are all required.
unfoldable pub requires : Entries → Items → Bool
requires end req = true
requires (entry (str_key k) v es) req = contains_text k req && requires es req
requires (entry (other_key n) v es) req = requires es req

unfoldable pub requires_in : Entries → Option Value → Bool
requires_in properties (some (list_value req)) = requires properties req
requires_in properties _ = false

-- The required names of an object: those of its properties, if they are an object too.
unfoldable pub covers : Option Value → Option Value → Option Value → Bool
covers type (some (dict_value properties)) required = requires_in properties required
covers type _ required = if is_text "object" type then is_present required else true

-- An object node is closed and requires its properties.
unfoldable pub is_closed : Entries → Bool
is_closed es =
    if is_object (find "type" es) (find "properties" es)
    then is_false (find "additionalProperties" es)
      && covers (find "type" es) (find "properties" es) (find "required" es)
    else true

-- Strict all the way down: no default is left, and every object node is closed.
unfoldable mutual
  pub is_strict : Value → Bool
  is_strict (dict_value es) = strict_entries es && is_closed es
  is_strict (list_value xs) = strict_items xs
  is_strict v = true

  pub strict_items : Items → Bool
  strict_items nil = true
  strict_items (cons x xs) = is_strict x && strict_items xs

  pub strict_entries : Entries → Bool
  strict_entries end = true
  strict_entries (entry (str_key k) v es) =
      not (k == "default") && (is_strict v && strict_entries es)
  strict_entries (entry (other_key n) v es) = false

pub strict_entries-put :
    (k : String) (v : Value) (es : Entries)
    → (k == "default") ≡ false
    → is_strict v ≡ true
    → strict_entries es ≡ true
    → strict_entries (put k v es) ≡ true
unfolding strict_entries put
strict_entries-put k v end plain first rest = rw (plain, first) refl
strict_entries-put k v (entry (other_key n) old es) plain first rest = absurd (cc)
strict_entries-put k v (entry (str_key j) old es) plain first rest =
    let (named, both) =
      and_parts (not (j == "default")) (is_strict old && strict_entries es) rest in
    let (older, more) = and_parts (is_strict old) (strict_entries es) both in
    elim (Bool-cases (j == k)) [
      | inl hit ↦ rw hit (rw (named, first, more) refl)
      | inr miss ↦ rw miss (rw (named, older, strict_entries-put k v es plain first more) refl)
    ]

pub strict-find :
    (k : String) (es : Entries) {v : Value}
    → strict_entries es ≡ true
    → find k es ≡ some v
    → is_strict v ≡ true
unfolding strict_entries find
strict-find k end h found = absurd (cc)
strict-find k (entry (other_key n) old es) h found = absurd (cc)
strict-find k (entry (str_key j) old es) h found =
    let (named, both) = and_parts (not (j == "default")) (is_strict old && strict_entries es) h in
    let (older, more) = and_parts (is_strict old) (strict_entries es) both in
    elim (Bool-cases (j == k)) [
      | inl hit ↦ let same = rw hit at found in ground (arith, same, older)
      | inr miss ↦ strict-find k es more (rw miss at found)
    ]

strict_items-push :
    (k : String) (xs : Items) → strict_items xs ≡ true → strict_items (push k xs) ≡ true
unfolding strict_items is_strict push
strict_items-push k nil h = refl
strict_items-push k (cons x xs) h =
    let (first, rest) = and_parts (is_strict x) (strict_items xs) h in
    rw (first, strict_items-push k xs rest) refl

contains_text-push : (k : String) (xs : Items) → contains_text k (push k xs) ≡ true
unfolding contains_text push is_text
contains_text-push k nil = ground (arith, eq_iff k k)
contains_text-push k (cons x xs) = elim (Bool-cases (is_text k (some x))) [
  | inl hit ↦ rw hit refl
  | inr miss ↦ rw miss (contains_text-push k xs)
]

contains_text-push_other :
    (k j : String) (xs : Items) → contains_text k xs ≡ true → contains_text k (push j xs) ≡ true
unfolding contains_text push
contains_text-push_other k j nil h = absurd (cc)
contains_text-push_other k j (cons x xs) h = elim (Bool-cases (is_text k (some x))) [
  | inl hit ↦ rw hit refl
  | inr miss ↦ rw miss (contains_text-push_other k j xs (rw miss at h))
]

-- The names that are required before, or that one of the properties has.
added :
    (b : Bool) (k : String) (req : Items)
    → contains_text k req ≡ b
    → contains_text k (if b then req else push k req) ≡ true
added true k req h = h
added false k req h = contains_text-push k req

contains_text-add_required :
    (k : String) (es : Entries) (req : Items)
    → contains_text k req ≡ true
    → contains_text k (add_required es req) ≡ true
unfolding add_required
contains_text-add_required k end req h = h
contains_text-add_required k (entry (other_key n) v es) req h =
    contains_text-add_required k es req h
contains_text-add_required k (entry (str_key j) v es) req h =
    contains_text-add_required k es _ (kept (contains_text j req))
  where
    kept : (b : Bool) → contains_text k (if b then req else push j req) ≡ true
    kept true = h
    kept false = contains_text-push_other k j req h

pub requires-add_required : (es : Entries) (req : Items) → requires es (add_required es req) ≡ true
unfolding requires add_required
requires-add_required end req = refl
requires-add_required (entry (other_key n) v es) req = requires-add_required es req
requires-add_required (entry (str_key k) v es) req =
    let req' = if contains_text k req then req else push k req in
    rw
      (
        contains_text-add_required k es req' (added (contains_text k req) k req refl),
        requires-add_required es req',
      )
      refl

pub strict_items-add_required :
    (es : Entries) (req : Items)
    → strict_items req ≡ true
    → strict_items (add_required es req) ≡ true
unfolding add_required
strict_items-add_required end req h = h
strict_items-add_required (entry (other_key n) v es) req h = strict_items-add_required es req h
strict_items-add_required (entry (str_key k) v es) req h =
    strict_items-add_required es _ (kept (contains_text k req))
  where
    kept : (b : Bool) → strict_items (if b then req else push k req) ≡ true
    kept true = h
    kept false = strict_items-push k req h
