-- ===== src/Codex/Schema/Normal.antt =====
-- The strict form that `_normalize_sdk_schema` gives a schema (providers/codex/_structured.py).
use proteo_runtime.Prelude.{
  ℕ, String, Bool, true, false, ◌&&◌, ◌≡◌, refl, sym, ◌∙◌, Option, some, inl, inr, ◌==◌, string_eq,
  if◌then◌else◌, Bool-cases,
}
use proteo_runtime.Prelude.Result.{ok, raise, >>=-eq-ok}
use proteo_runtime.Core.Errors.{Py, type_error}
use proteo_runtime.Tools.Values.{
  Value, bool_value, dict_value, list_value, Items, nil, cons, Entries, end, entry,
}
use proteo_runtime.Tools.Values.Mapping.{find, put, is_present, find-put}
use proteo_runtime.Codex.Schema.{
  text_of_key, is_text, is_false, is_object, all_hashable, add_required, required_of, require_all,
  deny_additional, close_object, visit, visit_items, visit_entries,
}
use proteo_runtime.Codex.Schema.Strict.{
  requires_in, covers, is_closed, is_strict, strict_items, strict_entries, strict_entries-put,
  strict-find, requires-add_required, strict_items-add_required,
}

required_of-strict :
    (properties : Entries) (o : Option Value) (r : Value)
    → ((v : Value) → o ≡ some v → is_strict v ≡ true)
    → required_of properties o ≡ ok r
    → (requires_in properties (some r) ≡ true) × (is_strict r ≡ true)
unfolding required_of requires_in is_strict strict_items
required_of-strict properties (some (list_value xs)) r h made =
    elim (Bool-cases (all_hashable xs)) [
      | inl fine ↦
          (let same : ◌≡◌ {A = Py Value} (ok (list_value (add_required properties xs))) (ok r) =
              rw fine at made in
            let eq : list_value (add_required properties xs) ≡ r = cc in
            rw (sym eq) (
              requires-add_required properties xs,
              strict_items-add_required properties xs (h (list_value xs) refl),
            ))
      | inr broken ↦
          (let clash : ◌≡◌ {A = Py Value} (raise type_error) (ok r) = rw broken at made in
            absurd (cc))
    ]
required_of-strict properties _ r h made =
    let eq : list_value (add_required properties nil) ≡ r = cc in
    rw (sym eq)
      (requires-add_required properties nil, strict_items-add_required properties nil refl)

closed-if : (b c d : Bool) → c ≡ true → d ≡ true → (if b then c && d else true) ≡ true
closed-if true c d h k = rw (h, k) refl
closed-if false c d h k = refl

is_closed-put :
    (es : Entries) (q : Value)
    → is_false (find "additionalProperties" es) ≡ true
    → covers (find "type" es) (find "properties" es) (some q) ≡ true
    → is_closed (put "required" q es) ≡ true
unfolding is_closed
is_closed-put es q denied covered =
    let r = put "required" q es in
    closed-if (is_object (find "type" r) (find "properties" r))
      (is_false (find "additionalProperties" r))
      (covers (find "type" r) (find "properties" r) (find "required" r))
      (rw (find-put "required" "additionalProperties" q es) denied)
      (rw
        (
          find-put "required" "type" q es,
          find-put "required" "properties" q es,
          find-put "required" "required" q es,
        )
        covered)

-- What a visited node is in the end.
record Normal (r : Entries) : Type 0 where
  entries : strict_entries r ≡ true
  closed : is_closed r ≡ true

put_required-Normal :
    (es : Entries) (q : Value)
    → strict_entries es ≡ true
    → is_strict q ≡ true
    → is_false (find "additionalProperties" es) ≡ true
    → covers (find "type" es) (find "properties" es) (some q) ≡ true
    → Normal (put "required" q es)
put_required-Normal es q strict fine denied covered = record {
  entries = strict_entries-put "required" q es refl fine strict;
  closed = is_closed-put es q denied covered;
}

ok-eq : {A : Type 0} {a b : A} → ◌≡◌ {A = Py A} (ok a) (ok b) → a ≡ b
ok-eq h = cc

ready-Normal :
    (es : Entries)
    → strict_entries es ≡ true
    → is_false (find "additionalProperties" es) ≡ true
    → covers (find "type" es) (find "properties" es) (find "required" es) ≡ true
    → Normal es
unfolding is_closed
ready-Normal es strict denied covered = record {
  entries = strict;
  closed =
      closed-if (is_object (find "type" es) (find "properties" es))
        (is_false (find "additionalProperties" es))
        (covers (find "type" es) (find "properties" es) (find "required" es)) denied covered;
}

-- A node whose properties are missing or no object; `typed` is whether its type says that it is one.
bare-Normal :
    (es r : Entries) (typed listed : Bool)
    → is_text "object" (find "type" es) ≡ typed
    → is_present (find "required" es) ≡ listed
    → strict_entries es ≡ true
    → is_false (find "additionalProperties" es) ≡ true
    → ((q : Option Value)
        → covers (find "type" es) (find "properties" es) q
          ≡ (if is_text "object" (find "type" es) then is_present q else true))
    → ◌≡◌ {A = Py Entries}
        (if typed then if listed then ok es else ok (put "required" (list_value nil) es) else ok es)
        (ok r)
    → Normal r
unfolding is_strict strict_items is_present
bare-Normal es r true true t l strict denied cover made =
    rw (sym (ok-eq made)) (ready-Normal es strict denied (cover _ ∙ rw t l))
bare-Normal es r true false t l strict denied cover made =
    rw (sym (ok-eq made))
      (put_required-Normal es (list_value nil) strict refl denied (cover _ ∙ rw t refl))
bare-Normal es r false listed t l strict denied cover made =
    rw (sym (ok-eq made)) (ready-Normal es strict denied (cover _ ∙ rw t refl))

require_all-Normal :
    (properties : Option Value) (es r : Entries)
    → properties ≡ find "properties" es
    → strict_entries es ≡ true
    → is_false (find "additionalProperties" es) ≡ true
    → require_all properties es ≡ ok r
    → Normal r
unfolding require_all covers
require_all-Normal (some (dict_value ps)) es r here strict denied made =
    let (q, listed, rest) = >>=-eq-ok (required_of ps (find "required" es)) _ made in
    let (covered, fine) =
      required_of-strict ps (find "required" es) q
        (λ v found. strict-find "required" es strict found) listed in
    rw (sym (ok-eq rest)) (put_required-Normal es q strict fine denied (rw (sym here) covered))
require_all-Normal _ es r here strict denied made =
    bare-Normal es r (is_text "object" (find "type" es)) (is_present (find "required" es)) refl refl
      strict denied (λ q. rw (sym here) refl) made

pub deny_additional-strict :
    (es : Entries)
    → strict_entries es ≡ true
    → (strict_entries (deny_additional es) ≡ true)
      × (is_false (find "additionalProperties" (deny_additional es)) ≡ true)
      × (find "properties" (deny_additional es) ≡ find "properties" es)
unfolding deny_additional is_false is_strict
deny_additional-strict es strict = elim (Bool-cases (is_false (find "additionalProperties" es))) [
  | inl denied ↦ rw denied (strict, denied, refl)
  | inr open_node ↦
      rw
        (
          open_node,
          find-put "additionalProperties" "additionalProperties" (bool_value false) es,
          find-put "additionalProperties" "properties" (bool_value false) es,
        )
        (
          strict_entries-put "additionalProperties" (bool_value false) es refl refl strict,
          refl,
          refl,
        )
]

plain-Normal :
    (es : Entries)
    → strict_entries es ≡ true
    → is_object (find "type" es) (find "properties" es) ≡ false
    → Normal es
unfolding is_closed
plain-Normal es strict plain = record { entries = strict; closed = rw plain refl }

close_object-Normal :
    (es r : Entries) → strict_entries es ≡ true → close_object es ≡ ok r → Normal r
unfolding close_object
close_object-Normal es r strict made =
    elim (Bool-cases (is_object (find "type" es) (find "properties" es))) [
      | inl node ↦
          (let (kept, denied, same) = deny_additional-strict es strict in
            require_all-Normal (find "properties" es) (deny_additional es) r (sym same) kept denied
              (rw node at made))
      | inr plain ↦ rw (sym (ok-eq (rw plain at made))) (plain-Normal es strict plain)
    ]

mutual
  unfolding visit visit_items visit_entries is_strict strict_items strict_entries

  pub visit-strict : (str : ℕ → String) (v w : Value) → visit str v ≡ ok w → is_strict w ≡ true
  visit-strict str (dict_value es) w made =
      let (visited, first, rest) = >>=-eq-ok (visit_entries str es end) _ made in
      let (closed, second, last) = >>=-eq-ok (close_object visited) _ rest in
      let normal =
        close_object-Normal visited closed (visit_entries-strict str es end visited refl first)
          second in
      rw (sym (ok-eq last)) (rw (normal.entries, normal.closed) refl)
  visit-strict str (list_value xs) w made =
      let (visited, first, last) = >>=-eq-ok (visit_items str xs) _ made in
      rw (sym (ok-eq last)) (visit_items-strict str xs visited first)
  visit-strict str _ w made = rw (sym (ok-eq made)) refl

  visit_items-strict :
      (str : ℕ → String) (xs ys : Items) → visit_items str xs ≡ ok ys → strict_items ys ≡ true
  visit_items-strict str nil ys made = rw (sym (ok-eq made)) refl
  visit_items-strict str (cons x xs) ys made =
      let (y, first, rest) = >>=-eq-ok (visit str x) _ made in
      let (zs, second, last) = >>=-eq-ok (visit_items str xs) _ rest in
      rw (sym (ok-eq last))
        (rw (visit-strict str x y first, visit_items-strict str xs zs second) refl)

  visit_entries-strict :
      (str : ℕ → String) (es done r : Entries)
      → strict_entries done ≡ true
      → visit_entries str es done ≡ ok r
      → strict_entries r ≡ true
  visit_entries-strict str end done r strict made = rw (sym (ok-eq made)) strict
  visit_entries-strict str (entry k v es) done r strict made =
      elim (Bool-cases (text_of_key str k == "default")) [
        | inl dropped ↦
            visit_entries-strict str es done r strict (rw (visit_entries, dropped) at made)
        | inr plain ↦
            (let (w, first, rest) = >>=-eq-ok (visit str v) _ (rw (visit_entries, plain) at made) in
              visit_entries-strict str es (put (text_of_key str k) w done) r
                (strict_entries-put (text_of_key str k) w done plain (visit-strict str v w first)
                  strict)
                rest)
      ]
