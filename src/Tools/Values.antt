-- ===== src/Tools/Values.antt =====
-- tools/__init__.py, `_freeze`, `_thaw` and `_json_safe`: Python values, and their immutable copies.
pub mod Laws
pub mod Mapping
use Prim.Native.Nat.{◌/◌, ◌%◌, ◌^◌}
use Prim.Native.String.{compare}
use text.Mathlib.Text.{is_le}
use proteo_runtime.Prelude.{
  ℕ, String, Bool, true, false, not, nat_beq, leb, ◌||◌, if◌then◌else◌, ◌≡◌,
}
use proteo_runtime.Prelude.Result.{ok, raise, raise_if, ◌>>=◌, ◌>>◌}
use proteo_runtime.Core.Errors.{Py, type_error}

-- A key of a mapping: `other_key` is any key that is no string.
pub data Key : Type 0 where
  str_key : String → Key
  other_key : ℕ → Key

mutual
  -- `int_value` has a sign and a magnitude, `float_value` the bits of a double; `object_value` is a
  -- value of any class that the code does not test for.
  pub data Value : Type 0 where
    none_value : Value
    bool_value : Bool → Value
    int_value : Bool → ℕ → Value
    float_value : ℕ → Value
    str_value : String → Value
    dict_value : Entries → Value
    proxy_value : Entries → Value
    list_value : Items → Value
    tuple_value : Items → Value
    set_value : Items → Value
    frozenset_value : Items → Value
    object_value : ℕ → Value

  pub data Items : Type 0 where
    nil : Items
    cons : Value → Items → Items

  pub data Entries : Type 0 where
    end : Entries
    entry : Key → Value → Entries → Entries

-- `math.isfinite` on the bits of a double: the exponent is not all ones.
unfoldable pub is_finite : ℕ → Bool
is_finite bits = not (nat_beq ((bits / 2 ^ 52) % 2048) 2047)

-- `x <= 0` for a finite double: a zero, or the sign bit is set.
unfoldable pub le_zero : ℕ → Bool
le_zero bits = nat_beq bits 0 || leb (2 ^ 63) bits

-- `str(key)` of a key. A frozen mapping has string keys only.
unfoldable pub key_text : (ℕ → String) → Key → Key
key_text str (str_key s) = str_key s
key_text str (other_key n) = str_key (str n)

unfoldable pub has_other_key : Entries → Bool
has_other_key end = false
has_other_key (entry (str_key s) v es) = has_other_key es
has_other_key (entry (other_key n) v es) = true

-- `json.dumps` and `str` of foreign keys belong to the standard library, and are parameters.
pub record Render : Type 0 where
  pub dumps : Value → String
  pub str : ℕ → String

unfoldable mutual
  pub thaw : Render → Value → Value
  thaw r (dict_value es) = dict_value (thaw_entries r es)
  thaw r (proxy_value es) = dict_value (thaw_entries r es)
  thaw r (tuple_value xs) = list_value (thaw_items r xs)
  thaw r v = v

  pub thaw_items : Render → Items → Items
  thaw_items r nil = nil
  thaw_items r (cons x xs) = cons (thaw r x) (thaw_items r xs)

  pub thaw_entries : Render → Entries → Entries
  thaw_entries r end = end
  thaw_entries r (entry k v es) = entry (key_text r.str k) (thaw r v) (thaw_entries r es)

-- `sorted(frozen, key=λ item: json.dumps(_thaw(item)))`, a stable sort.
insert_sorted : (Value → String) → Value → Items → Items
insert_sorted key x nil = cons x nil
insert_sorted key x (cons y ys) =
    if is_le (compare (key x) (key y)) then cons x (cons y ys) else cons y (insert_sorted key x ys)

unfoldable pub sort_items : (Value → String) → Items → Items
unfolding insert_sorted
sort_items key nil = nil
sort_items key (cons x xs) = insert_sorted key x (sort_items key xs)

unfoldable mutual
  pub freeze : Render → Value → Py Value
  freeze r (float_value bits) = do raise_if (not (is_finite bits)) type_error; ok (float_value bits)
  freeze r (dict_value es) = do
    raise_if (has_other_key es) type_error
    fs ← freeze_entries r es
    ok (proxy_value fs)
  freeze r (proxy_value es) = do
    raise_if (has_other_key es) type_error
    fs ← freeze_entries r es
    ok (proxy_value fs)
  freeze r (list_value xs) = do ys ← freeze_items r xs; ok (tuple_value ys)
  freeze r (tuple_value xs) = do ys ← freeze_items r xs; ok (tuple_value ys)
  freeze r (set_value xs) = do
    ys ← freeze_items r xs
    ok (tuple_value (sort_items (λ v. r.dumps (thaw r v)) ys))
  freeze r (frozenset_value xs) = do
    ys ← freeze_items r xs
    ok (tuple_value (sort_items (λ v. r.dumps (thaw r v)) ys))
  freeze r (object_value n) = raise type_error
  freeze r v = ok v

  pub freeze_items : Render → Items → Py Items
  freeze_items r nil = ok nil
  freeze_items r (cons x xs) = do y ← freeze r x; ys ← freeze_items r xs; ok (cons y ys)

  pub freeze_entries : Render → Entries → Py Entries
  freeze_entries r end = ok end
  freeze_entries r (entry k v es) = do w ← freeze r v; fs ← freeze_entries r es; ok (entry k w fs)
