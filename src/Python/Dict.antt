-- ===== src/Python/Dict.antt =====
-- `dict` operations: `d.get(k)`, `d[k] = v`, `d.pop(k, None)`, `d.setdefault(k, v)`.
use stapel_realtime.Prelude.{
  String, ◌≡◌, refl, Option, none, some, Bool, true, false, arith, str_eq, eq_iff, if◌then◌else◌,
}
use stapel_realtime.Python.Values.{Value, null, Fields, end, field}

unfoldable pub get : String → Fields → Option Value
get k end = none
get k (field j v d) = if str_eq j k then some v else get k d

-- `d.get(k)`, where a missing key reads as None.
unfoldable pub get_or_null : String → Fields → Value
unfolding get
get_or_null k d = elim (get k d) [ none ↦ null | some v ↦ v ]

unfoldable pub put : String → Value → Fields → Fields
put k v end = field k v end
put k v (field j w d) = if str_eq j k then field j v d else field j w (put k v d)

unfoldable pub set_default : String → Value → Fields → Fields
unfolding get put
set_default k v d = elim (get k d) [ none ↦ put k v d | some _ ↦ d ]

unfoldable pub is_empty : Fields → Bool
is_empty end = true
is_empty (field _ _ _) = false

pub get-put :
    (k j : String) (v : Value) (d : Fields)
    → get j (put k v d) ≡ (if str_eq k j then some v else get j d)
unfolding get put
get-put k j v end = refl
get-put k j v (field i w d) = ground (arith, eq_iff k j, eq_iff i k, eq_iff i j, get-put k j v d)
