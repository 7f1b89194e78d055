-- ===== src/Json/Dict.antt =====
-- A JSON object as a Python dict, in insertion order, and the truth of a JSON value.
use anytoolai_platform.Prelude.{
  String, ◌==◌, Bool, true, false, not, ◌||◌, Option, none, some, eqb, ◌≡◌, refl, arith, eq_iff,
  eq_refl, if◌then◌else◌,
}
use anytoolai_platform.Json.{
  Json, null, boolean, integer, negative, float, text, array, object, nil, cons, Fields, empty,
  field,
}

-- `d.get(k)`, with `none` for a missing key
unfoldable pub lookup : String → Fields → Option Json
lookup k empty = none
lookup k (field j v d) = if j == k then some v else lookup k d

-- `d[k] = v`
unfoldable pub insert : String → Json → Fields → Fields
insert k v empty = field k v empty
insert k v (field j w d) = if j == k then field k v d else field j w (insert k v d)

pub lookup-insert :
    (k j : String) (v : Json) (d : Fields)
    → lookup j (insert k v d) ≡ (if k == j then some v else lookup j d)
unfolding lookup insert
lookup-insert k j v empty = refl
lookup-insert k j v (field i w d) =
    ground (arith, eq_iff k j, eq_iff i k, eq_iff i j, lookup-insert k j v d)

pub lookup-insert_self : (k : String) (v : Json) (d : Fields) → lookup k (insert k v d) ≡ some v
lookup-insert_self k v d = rw (lookup-insert k k v d, eq_refl k) refl

-- `bool(v)`. A float stands as its `repr`.
unfoldable pub is_true : Json → Bool
is_true null = false
is_true (boolean b) = b
is_true (integer n) = not (eqb n 0)
is_true (negative n) = true
is_true (float s) = not (s == "0.0" || s == "-0.0")
is_true (text s) = not (s == "")
is_true (array nil) = false
is_true (array (cons x xs)) = true
is_true (object empty) = false
is_true (object (field k v d)) = true

-- `d.update(e)`
unfoldable pub update : Fields → Fields → Fields
unfolding insert
update d empty = d
update d (field k v e) = update (insert k v d) e
