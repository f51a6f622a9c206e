-- ===== src/Json/Equality.antt =====
-- The structural equality of documents decides equality.
use the_pass.Prelude.{String, true, ◌≡◌, refl, str_eq, arith, eq_iff, eq_refl, ◌&&◌, &&-eq-true}
use the_pass.Json.{
  pos, negsuc, Value, null, boolean, integer, decimal, text, array, object, Items, end, item,
  Fields, nil, field, value_eq, items_eq, fields_eq,
}

items_eq_parts :
    (v w : Value) (r s : Items)
    → items_eq (item v r) (item w s) ≡ true
    → (value_eq v w ≡ true) × (items_eq r s ≡ true)
unfolding value_eq
items_eq_parts v w r s h = &&-eq-true (value_eq v w) (items_eq r s) h

fields_eq_parts :
    (k j : String) (v w : Value) (r s : Fields)
    → fields_eq (field k v r) (field j w s) ≡ true
    → (k ≡ j) × (value_eq v w ≡ true) × (fields_eq r s ≡ true)
unfolding value_eq
fields_eq_parts k j v w r s h =
    let p = &&-eq-true (str_eq k j && value_eq v w) (fields_eq r s) h in
    let q = &&-eq-true (str_eq k j) (value_eq v w) p.0 in ((eq_iff k j).0 q.0, q.1, p.1)

-- Documents that compare equal are equal.
mutual
  unfolding value_eq

  sound : (v w : Value) → value_eq v w ≡ true → v ≡ w
  sound null w h = ground arith
  sound (boolean a) w h = ground arith
  sound (integer (pos a)) w h = ground arith
  sound (integer (negsuc a)) w h = ground arith
  sound (decimal a) (decimal b) h = cc ((eq_iff a b).0 h)
  sound (decimal a) null h = cc
  sound (decimal a) _ h = cc
  sound (text a) (text b) h = cc ((eq_iff a b).0 h)
  sound (text a) null h = cc
  sound (text a) _ h = cc
  sound (array a) (array b) h = cc (sound_items a b h)
  sound (array a) null h = cc
  sound (array a) _ h = cc
  sound (object a) (object b) h = cc (sound_fields a b h)
  sound (object a) null h = cc
  sound (object a) _ h = cc

  sound_items : (v w : Items) → items_eq v w ≡ true → v ≡ w
  sound_items end end h = refl
  sound_items end (item x y) h = cc
  sound_items (item v r) end h = cc
  sound_items (item v r) (item w s) h =
      let p = items_eq_parts v w r s h in cc (sound v w p.0, sound_items r s p.1)

  sound_fields : (v w : Fields) → fields_eq v w ≡ true → v ≡ w
  sound_fields nil nil h = refl
  sound_fields nil (field x y z) h = cc
  sound_fields (field k v r) nil h = cc
  sound_fields (field k v r) (field j w s) h =
      let p = fields_eq_parts k j v w r s h in cc (p.0, sound v w p.1, sound_fields r s p.2)

mutual
  unfolding value_eq

  complete : (v : Value) → value_eq v v ≡ true
  complete null = refl
  complete (boolean a) = ground arith
  complete (integer (pos a)) = ground arith
  complete (integer (negsuc a)) = ground arith
  complete (decimal a) = eq_refl a
  complete (text a) = eq_refl a
  complete (array a) = complete_items a
  complete (object a) = complete_fields a

  complete_items : (v : Items) → items_eq v v ≡ true
  complete_items end = refl
  complete_items (item v r) = ground (arith, complete v, complete_items r)

  complete_fields : (v : Fields) → fields_eq v v ≡ true
  complete_fields nil = refl
  complete_fields (field k v r) = ground (arith, eq_refl k, complete v, complete_fields r)

pub value_eq→eq : (v w : Value) → value_eq v w ≡ true → v ≡ w
value_eq→eq v w h = sound v w h

pub value_eq_refl : (v : Value) → value_eq v v ≡ true
value_eq_refl v = complete v

pub fields_eq→eq : (v w : Fields) → fields_eq v w ≡ true → v ≡ w
fields_eq→eq v w h = sound_fields v w h

pub fields_eq_refl : (v : Fields) → fields_eq v v ≡ true
fields_eq_refl v = complete_fields v
