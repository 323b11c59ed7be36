-- ===== src/Tools/Values/Laws.antt =====
-- What freezing a thawed value gives (tools/__init__.py).
use proteo_runtime.Prelude.{
  ℕ, String, Bool, true, false, not, ◌&&◌, ◌≡◌, refl, arith, and_parts, inl, inr, Bool-cases,
}
use proteo_runtime.Prelude.Result.{ok, raise, raise_if, ◌>>=◌, ◌>>◌, >>=-eq-ok}
use proteo_runtime.Core.Errors.{Py, type_error}
use proteo_runtime.Tools.Values.{
  Key, str_key, other_key, Value, none_value, bool_value, int_value, float_value, str_value,
  dict_value, proxy_value, list_value, tuple_value, set_value, frozenset_value, object_value, Items,
  nil, cons, Entries, end, entry, is_finite, has_other_key, Render, thaw, thaw_items, thaw_entries,
  insert_sorted, sort_items, freeze, freeze_items, freeze_entries, key_text,
}

-- Finite scalars, read-only mappings with string keys, and tuples, all the way down.
unfoldable mutual
  pub is_frozen : Value → Bool
  is_frozen none_value = true
  is_frozen (bool_value b) = true
  is_frozen (int_value s n) = true
  is_frozen (float_value bits) = is_finite bits
  is_frozen (str_value s) = true
  is_frozen (proxy_value es) = frozen_entries es
  is_frozen (tuple_value xs) = frozen_items xs
  is_frozen (dict_value es) = false
  is_frozen (list_value xs) = false
  is_frozen (set_value xs) = false
  is_frozen (frozenset_value xs) = false
  is_frozen (object_value n) = false

  pub frozen_items : Items → Bool
  frozen_items nil = true
  frozen_items (cons x xs) = is_frozen x && frozen_items xs

  pub frozen_entries : Entries → Bool
  frozen_entries end = true
  frozen_entries (entry (str_key s) v es) = is_frozen v && frozen_entries es
  frozen_entries (entry (other_key n) v es) = false

has_other_key-thaw : (r : Render) (es : Entries) → has_other_key (thaw_entries r es) ≡ false
unfolding has_other_key thaw_entries key_text
has_other_key-thaw r end = refl
has_other_key-thaw r (entry (str_key s) v es) = has_other_key-thaw r es
has_other_key-thaw r (entry (other_key n) v es) = has_other_key-thaw r es

mutual
  unfolding freeze freeze_items freeze_entries thaw thaw_items thaw_entries is_frozen frozen_items
      frozen_entries key_text

  freeze-thaw_value : (r : Render) (v : Value) → is_frozen v ≡ true → freeze r (thaw r v) ≡ ok v
  freeze-thaw_value r none_value h = refl
  freeze-thaw_value r (bool_value b) h = refl
  freeze-thaw_value r (int_value s n) h = refl
  freeze-thaw_value r (float_value bits) h = rw h
  freeze-thaw_value r (str_value s) h = refl
  freeze-thaw_value r (proxy_value es) h =
      rw (has_other_key-thaw r es) (rw (freeze-thaw_entries r es h))
  freeze-thaw_value r (tuple_value xs) h = rw (freeze-thaw_items r xs h)
  freeze-thaw_value r (dict_value es) h = absurd (cc)
  freeze-thaw_value r (list_value xs) h = absurd (cc)
  freeze-thaw_value r (set_value xs) h = absurd (cc)
  freeze-thaw_value r (frozenset_value xs) h = absurd (cc)
  freeze-thaw_value r (object_value n) h = absurd (cc)

  freeze-thaw_items :
      (r : Render) (xs : Items) → frozen_items xs ≡ true → freeze_items r (thaw_items r xs) ≡ ok xs
  freeze-thaw_items r nil h = refl
  freeze-thaw_items r (cons x xs) h =
      let (first, rest) = and_parts (is_frozen x) (frozen_items xs) h in
      rw (freeze-thaw_value r x first) (rw (freeze-thaw_items r xs rest))

  freeze-thaw_entries :
      (r : Render) (es : Entries)
      → frozen_entries es ≡ true
      → freeze_entries r (thaw_entries r es) ≡ ok es
  freeze-thaw_entries r end h = refl
  freeze-thaw_entries r (entry (str_key s) v es) h =
      let (first, rest) = and_parts (is_frozen v) (frozen_entries es) h in
      rw (freeze-thaw_value r v first) (rw (freeze-thaw_entries r es rest))
  freeze-thaw_entries r (entry (other_key n) v es) h = absurd (cc)

frozen_items-insert :
    (key : Value → String) (x : Value) (xs : Items)
    → is_frozen x ≡ true
    → frozen_items xs ≡ true
    → frozen_items (insert_sorted key x xs) ≡ true
unfolding insert_sorted frozen_items
frozen_items-insert key x nil h k = rw h
frozen_items-insert key x (cons y ys) h k =
    let (first, rest) = and_parts (is_frozen y) (frozen_items ys) k in
    ground (arith, frozen_items-insert key x ys h rest)

frozen_items-sort :
    (key : Value → String) (xs : Items)
    → frozen_items xs ≡ true
    → frozen_items (sort_items key xs) ≡ true
unfolding sort_items frozen_items
frozen_items-sort key nil h = refl
frozen_items-sort key (cons x xs) h =
    let (first, rest) = and_parts (is_frozen x) (frozen_items xs) h in
    frozen_items-insert key x (sort_items key xs) first (frozen_items-sort key xs rest)

ok_eq : {A : Type 0} {a b : A} → ◌≡◌ {A = Py A} (ok a) (ok b) → a ≡ b
ok_eq h = cc

mapping_frozen :
    (r : Render) (es : Entries) (w : Value)
    → ((fs : Entries)
        → freeze_entries r es ≡ ok fs
        → has_other_key es ≡ false
        → frozen_entries fs ≡ true)
    → (raise_if (has_other_key es) type_error
        >> (freeze_entries r es >>= λ fs. ok (proxy_value fs)))
      ≡ ok w
    → is_frozen w ≡ true
unfolding is_frozen
mapping_frozen r es w ih h = elim (Bool-cases (has_other_key es)) [
  | inl bad ↦ absurd (refused (rw bad at h))
  | inr good ↦
      found (>>=-eq-ok (freeze_entries r es) (λ fs. ok (proxy_value fs)) (rw good at h)) good
]
  where
    refused : ◌≡◌ {A = Py Value} (raise type_error) (ok w) → ⊥
    refused p = cc

    found :
        (fs : Entries) × (freeze_entries r es ≡ ok fs)
          × (◌≡◌ {A = Py Value} (ok (proxy_value fs)) (ok w))
        → has_other_key es ≡ false
        → is_frozen w ≡ true
    found (fs, e, k) good = rw (← ok_eq k) (ih fs e good)

sequence_frozen :
    (r : Render) (xs : Items) (w : Value) (f : Items → Items)
    → ((ys : Items) → freeze_items r xs ≡ ok ys → frozen_items (f ys) ≡ true)
    → (freeze_items r xs >>= λ ys. ok (tuple_value (f ys))) ≡ ok w
    → is_frozen w ≡ true
unfolding is_frozen
sequence_frozen r xs w f ih h =
    found (>>=-eq-ok (freeze_items r xs) (λ ys. ok (tuple_value (f ys))) h)
  where
    found :
        (ys : Items) × (freeze_items r xs ≡ ok ys)
          × (◌≡◌ {A = Py Value} (ok (tuple_value (f ys))) (ok w))
        → is_frozen w ≡ true
    found (ys, e, k) = rw (← ok_eq k) (ih ys e)

scalar_frozen :
    (v w : Value) → is_frozen v ≡ true → ◌≡◌ {A = Py Value} (ok v) (ok w) → is_frozen w ≡ true
scalar_frozen v w f h = rw (← ok_eq h) f

float_frozen :
    (bits : ℕ) (w : Value)
    → (raise_if (not (is_finite bits)) type_error >> ok (float_value bits)) ≡ ok w
    → is_frozen w ≡ true
unfolding is_frozen
float_frozen bits w h = elim (Bool-cases (is_finite bits)) [
  | inl fine ↦ rw (← ok_eq (rw fine at h)) fine
  | inr bad ↦ absurd (refused (rw bad at h))
]
  where
    refused : ◌≡◌ {A = Py Value} (raise type_error) (ok w) → ⊥
    refused p = cc

cons_frozen :
    (ys : Items) (first : Py Value) (rest : Py Items)
    → ((w : Value) → first ≡ ok w → is_frozen w ≡ true)
    → ((zs : Items) → rest ≡ ok zs → frozen_items zs ≡ true)
    → (first >>= λ y. rest >>= λ zs. ok (cons y zs)) ≡ ok ys
    → frozen_items ys ≡ true
unfolding frozen_items
cons_frozen ys (ok y) (ok zs) f g h = rw (← ok_eq h) (rw (f y refl) (g zs refl))
cons_frozen ys (ok y) (raise e) f g h = absurd (cc)
cons_frozen ys (raise e) rest f g h = absurd (cc)

entry_frozen :
    (k : Key) (v : Value) (es fs : Entries) (first : Py Value) (rest : Py Entries)
    → ((w : Value) → first ≡ ok w → is_frozen w ≡ true)
    → ((gs : Entries) → rest ≡ ok gs → has_other_key es ≡ false → frozen_entries gs ≡ true)
    → (first >>= λ w. rest >>= λ gs. ok (entry k w gs)) ≡ ok fs
    → has_other_key (entry k v es) ≡ false
    → frozen_entries fs ≡ true
unfolding frozen_entries has_other_key
entry_frozen (str_key s) v es fs (ok w) (ok gs) f g h good =
    rw (← ok_eq h) (rw (f w refl) (g gs refl good))
entry_frozen (other_key n) v es fs first rest f g h good = absurd (cc)
entry_frozen (str_key s) v es fs (ok w) (raise e) f g h good = absurd (cc)
entry_frozen (str_key s) v es fs (raise e) rest f g h good = absurd (cc)

mutual
  unfolding freeze freeze_items freeze_entries is_frozen frozen_items frozen_entries

  freeze-is_frozen_value : (r : Render) (v w : Value) → freeze r v ≡ ok w → is_frozen w ≡ true
  freeze-is_frozen_value r none_value w h = scalar_frozen none_value w refl h
  freeze-is_frozen_value r (bool_value b) w h = scalar_frozen (bool_value b) w refl h
  freeze-is_frozen_value r (int_value s n) w h = scalar_frozen (int_value s n) w refl h
  freeze-is_frozen_value r (float_value bits) w h = float_frozen bits w h
  freeze-is_frozen_value r (str_value s) w h = scalar_frozen (str_value s) w refl h
  freeze-is_frozen_value r (proxy_value es) w h =
      mapping_frozen r es w (freeze-is_frozen_entries r es) h
  freeze-is_frozen_value r (dict_value es) w h =
      mapping_frozen r es w (freeze-is_frozen_entries r es) h
  freeze-is_frozen_value r (tuple_value xs) w h =
      sequence_frozen r xs w (λ ys. ys) (freeze-is_frozen_items r xs) h
  freeze-is_frozen_value r (list_value xs) w h =
      sequence_frozen r xs w (λ ys. ys) (freeze-is_frozen_items r xs) h
  freeze-is_frozen_value r (set_value xs) w h =
      sequence_frozen r xs w (sort_items (λ v. r.dumps (thaw r v)))
        (λ ys e. frozen_items-sort _ ys (freeze-is_frozen_items r xs ys e)) h
  freeze-is_frozen_value r (frozenset_value xs) w h =
      sequence_frozen r xs w (sort_items (λ v. r.dumps (thaw r v)))
        (λ ys e. frozen_items-sort _ ys (freeze-is_frozen_items r xs ys e)) h
  freeze-is_frozen_value r (object_value n) w h = absurd (cc)

  freeze-is_frozen_items :
      (r : Render) (xs ys : Items) → freeze_items r xs ≡ ok ys → frozen_items ys ≡ true
  freeze-is_frozen_items r nil ys h = rw (← ok_eq h) refl
  freeze-is_frozen_items r (cons x xs) ys h =
      cons_frozen ys (freeze r x) (freeze_items r xs) (freeze-is_frozen_value r x)
        (freeze-is_frozen_items r xs) h

  freeze-is_frozen_entries :
      (r : Render) (es fs : Entries)
      → freeze_entries r es ≡ ok fs
      → has_other_key es ≡ false
      → frozen_entries fs ≡ true
  freeze-is_frozen_entries r end fs h k = rw (← ok_eq h) refl
  freeze-is_frozen_entries r (entry k v es) fs h good =
      entry_frozen k v es fs (freeze r v) (freeze_entries r es) (freeze-is_frozen_value r v)
        (freeze-is_frozen_entries r es) h good

-- Whatever `_freeze` returns is frozen: finite scalars, read-only mappings whose keys are strings,
-- and tuples, at every depth.
pub freeze-is_frozen : (r : Render) (v w : Value) → freeze r v ≡ ok w → is_frozen w ≡ true
freeze-is_frozen r v w h = freeze-is_frozen_value r v w h

-- `_thaw` loses nothing that `_freeze` kept: freezing the thawed copy of a frozen value gives the same
-- frozen value again.
pub freeze-thaw : (r : Render) (v w : Value) → freeze r v ≡ ok w → freeze r (thaw r w) ≡ ok w
freeze-thaw r v w h = freeze-thaw_value r w (freeze-is_frozen_value r v w h)
