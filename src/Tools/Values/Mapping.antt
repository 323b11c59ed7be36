-- ===== src/Tools/Values/Mapping.antt =====
-- Python's `dict` with values of any type, as the parts of the runtime read and build one.
use proteo_runtime.Prelude.{
  String, Bool, true, false, ◌≡◌, refl, Option, none, some, ◌==◌, string_eq, if◌then◌else◌, arith,
  eq_iff,
}
use proteo_runtime.Tools.Values.{Value, Entries, end, entry, str_key, other_key}

-- `d.get(k)`, none where it is missing.
unfoldable pub find : String → Entries → Option Value
find k end = none
find k (entry (str_key j) v es) = if j == k then some v else find k es
find k (entry (other_key n) v es) = find k es

-- `d[k] = v`
unfoldable pub put : String → Value → Entries → Entries
put k v end = entry (str_key k) v end
put k v (entry (str_key j) old es) =
    if j == k then entry (str_key j) v es else entry (str_key j) old (put k v es)
put k v (entry (other_key n) old es) = entry (other_key n) old (put k v es)

unfoldable pub is_present : Option Value → Bool
is_present none = false
is_present (some v) = true

pub find-put :
    (k j : String) (v : Value) (es : Entries)
    → find j (put k v es) ≡ (if k == j then some v else find j es)
unfolding find put
find-put k j v end = refl
find-put k j v (entry (str_key i) old es) =
    ground (arith, eq_iff k j, eq_iff i k, eq_iff i j, find-put k j v es)
find-put k j v (entry (other_key n) old es) = find-put k j v es
