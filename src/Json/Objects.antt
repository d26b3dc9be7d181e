-- ===== src/Json/Objects.antt =====
-- Go maps from texts as association lists: reading and writing a key.
use get_magnet.Common.{
  ◌≡◌, refl, Option, none, some, String, str_eq, eq_iff, [], ◌∷◌, if◌then◌else◌, arith,
}
use get_magnet.Json.{Value, Object}

unfoldable pub lookup : String → Object → Option Value
lookup k [] = none
lookup k ((j, v) ∷ m) = if str_eq j k then some v else lookup k m

-- `m[k] = v`: a key that is there keeps its place.
unfoldable pub insert : String → Value → Object → Object
insert k v [] = (k, v) ∷ []
insert k v ((j, w) ∷ m) =
    let rest = insert k v m in if str_eq j k then (j, v) ∷ m else (j, w) ∷ rest

-- `delete(m, k)`
unfoldable pub remove : String → Object → Object
remove k [] = []
remove k ((j, w) ∷ m) = let rest = remove k m in if str_eq j k then rest else (j, w) ∷ rest

pub lookup-insert :
    (written asked : String) (new : Value) (values : Object)
    → lookup asked (insert written new values)
      ≡ (if str_eq written asked then some new else lookup asked values)
unfolding lookup insert
lookup-insert written asked new [] = refl
lookup-insert written asked new ((key, old) ∷ values) =
    let later = lookup-insert written asked new values in
    ground (arith, eq_iff key written, eq_iff key asked, eq_iff written asked, later)

pub lookup-remove :
    (k j : String) (m : Object) → lookup j (remove k m) ≡ (if str_eq k j then none else lookup j m)
unfolding lookup remove
lookup-remove k j [] = ground arith
lookup-remove k j ((i, w) ∷ m) =
    ground (arith, eq_iff k j, eq_iff i k, eq_iff i j, lookup-remove k j m)
