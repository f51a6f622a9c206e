-- ===== src/Json/Laws.antt =====
-- Reading a document after a key is set or removed.
use the_pass.Prelude.{String, ◌≡◌, refl, str_eq, arith, if◌then◌else◌, eq_iff, eq_refl}
use the_pass.Json.{Value, null, Fields, nil, field, get, remove, insert}

-- A key that is set reads as set, and the others as before.
pub get-insert :
    (k j : String) (v : Value) (m : Fields)
    → get k (insert j v m) ≡ (if str_eq k j then v else get k m)
get-insert k j v nil = refl
get-insert k j v (field i w m) =
    ground (arith, eq_iff k j, eq_iff k i, eq_iff j i, get-insert k j v m)

pub get-remove :
    (k j : String) (m : Fields) → get k (remove j m) ≡ (if str_eq k j then null else get k m)
get-remove k j nil = ground arith
get-remove k j (field i w m) = ground (arith, eq_iff k j, eq_iff k i, eq_iff j i, get-remove k j m)

-- Setting a key does not matter once it is removed.
pub remove-insert_self :
    (k : String) (v : Value) (m : Fields) → remove k (insert k v m) ≡ remove k m
remove-insert_self k v nil = ground (arith, eq_refl k)
remove-insert_self k v (field i w m) = ground (arith, eq_iff k i, remove-insert_self k v m)

pub get-insert_self : (k : String) (v : Value) (m : Fields) → get k (insert k v m) ≡ v
get-insert_self k v m = simp (get-insert, eq_refl)

pub remove_idem : (k : String) (m : Fields) → remove k (remove k m) ≡ remove k m
remove_idem k nil = refl
remove_idem k (field i w m) = ground (arith, remove_idem k m)
