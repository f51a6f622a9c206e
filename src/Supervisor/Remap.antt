-- ===== src/Supervisor/Remap.antt =====
-- workflow_supervisor.py: `_remap_rooted_paths`, there to the worktree and back.
use the_pass.Prelude.{
  String, Bool, true, false, not, Option, none, some, ◌≡◌, refl, sym, ap, ◌∙◌, if◌then◌else◌, inl,
  inr, Bool-cases,
}
use the_pass.Json.{
  ℤ, Value, null, boolean, integer, decimal, text, array, object, Items, end, item, Fields, nil,
  field,
}

-- `Path.is_absolute`, `Path(value).resolve(strict=False).relative_to(root)` where it does not raise,
-- and `str(root / relative)`. A relative path is plain under a root if it is not empty and not
-- absolute, is in its normal spelling without `..`, and meets no symbolic link below the root; the
-- code does not test it.
pub record Paths : Type 0 where
  pub is_absolute : String → Bool
  pub relative_to : String → String → Option String
  pub is_plain : String → String → Bool
  pub join : String → String → String

abbrev pub remap_text : Paths → String → String → String → String
remap_text x source destination value =
    if not (x.is_absolute value) then value else elim (x.relative_to source value) [
      | none ↦ value
      | some relative ↦ x.join destination relative
    ]

unfoldable mutual
  pub remap_rooted_paths : Paths → String → String → Value → Value
  remap_rooted_paths x a b (text s) = text (remap_text x a b s)
  remap_rooted_paths x a b (array r) = array (remap_items x a b r)
  remap_rooted_paths x a b (object m) = object (remap_fields x a b m)
  remap_rooted_paths x a b v = v

  pub remap_items : Paths → String → String → Items → Items
  remap_items x a b end = end
  remap_items x a b (item v r) = item (remap_rooted_paths x a b v) (remap_items x a b r)

  pub remap_fields : Paths → String → String → Fields → Fields
  remap_fields x a b nil = nil
  remap_fields x a b (field k v m) = field k (remap_rooted_paths x a b v) (remap_fields x a b m)

-- The state in the worktree, and `remap_candidate`.
abbrev pub isolated : Paths → String → String → Fields → Fields
isolated x caller_root worktree state = remap_fields x caller_root worktree state

abbrev pub remap_candidate : Paths → String → String → Fields → Fields
remap_candidate x caller_root worktree candidate = remap_fields x worktree caller_root candidate

-- A plain path that is joined to a root is absolute, and relative to it again.
pub record IsRoot (x : Paths) (root : String) : Type 0 where
  pub absolute :
      (relative : String)
      → x.is_plain root relative ≡ true
      → x.is_absolute (x.join root relative) ≡ true
  pub returns :
      (relative : String)
      → x.is_plain root relative ≡ true
      → x.relative_to root (x.join root relative) ≡ some relative

-- A text that is no absolute path, a path below the source that is plain under both roots, or a path
-- outside both roots.
pub data IsPortable (x : Paths) (a b : String) : String → Type 0 where
  local : {s : String} → x.is_absolute s ≡ false → IsPortable x a b s
  below :
      {s : String} (r : String)
      → s ≡ x.join a r
      → x.is_plain a r ≡ true
      → x.is_plain b r ≡ true
      → IsPortable x a b s
  outside : {s : String} → x.relative_to a s ≡ none → x.relative_to b s ≡ none → IsPortable x a b s

-- Every text of a document is.
mutual
  pub data ArePortable (x : Paths) (a b : String) : Value → Type 0 where
    of_null : ArePortable x a b null
    of_boolean : {c : Bool} → ArePortable x a b (boolean c)
    of_integer : {z : ℤ} → ArePortable x a b (integer z)
    of_decimal : {s : String} → ArePortable x a b (decimal s)
    of_text : {s : String} → IsPortable x a b s → ArePortable x a b (text s)
    of_array : {r : Items} → ItemsPortable x a b r → ArePortable x a b (array r)
    of_object : {m : Fields} → FieldsPortable x a b m → ArePortable x a b (object m)

  pub data ItemsPortable (x : Paths) (a b : String) : Items → Type 0 where
    no_items : ItemsPortable x a b end
    an_item :
        {v : Value} {r : Items}
        → ArePortable x a b v
        → ItemsPortable x a b r
        → ItemsPortable x a b (item v r)

  pub data FieldsPortable (x : Paths) (a b : String) : Fields → Type 0 where
    no_fields : FieldsPortable x a b nil
    a_field :
        {k : String} {v : Value} {m : Fields}
        → ArePortable x a b v
        → FieldsPortable x a b m
        → FieldsPortable x a b (field k v m)

remap_text-returns :
    (x : Paths) (a b s : String)
    → IsRoot x a
    → IsRoot x b
    → IsPortable x a b s
    → remap_text x b a (remap_text x a b s) ≡ s
remap_text-returns x a b s p q (local e) = rw (e, e) refl
remap_text-returns x a b s p q (below r e u v) =
    let f : remap_text x a b s ≡ x.join b r =
      ap (remap_text x a b) e ∙ rw (p.absolute r u, p.returns r u) refl in
    ap (remap_text x b a) f ∙ rw (q.absolute r v, q.returns r v) (sym e)
remap_text-returns x a b s p q (outside e f) = elim (Bool-cases (x.is_absolute s)) [
  | inl k ↦
      let g : remap_text x a b s ≡ s = rw (k, e) refl in ap (remap_text x b a) g ∙ rw (k, f) refl
  | inr k ↦ let g : remap_text x a b s ≡ s = rw k refl in ap (remap_text x b a) g ∙ rw k refl
]

mutual
  unfolding remap_rooted_paths

  remap_rooted_paths-returns :
      (x : Paths) (a b : String) (v : Value)
      → IsRoot x a
      → IsRoot x b
      → ArePortable x a b v
      → remap_rooted_paths x b a (remap_rooted_paths x a b v) ≡ v
  remap_rooted_paths-returns x a b v p q of_null = refl
  remap_rooted_paths-returns x a b v p q of_boolean = refl
  remap_rooted_paths-returns x a b v p q of_integer = refl
  remap_rooted_paths-returns x a b v p q of_decimal = refl
  remap_rooted_paths-returns x a b (text s) p q (of_text t) =
      ap text (remap_text-returns x a b s p q t)
  remap_rooted_paths-returns x a b (array r) p q (of_array t) =
      ap array (remap_items-returns x a b r p q t)
  remap_rooted_paths-returns x a b (object m) p q (of_object t) =
      ap object (remap_fields-returns x a b m p q t)

  remap_items-returns :
      (x : Paths) (a b : String) (r : Items)
      → IsRoot x a
      → IsRoot x b
      → ItemsPortable x a b r
      → remap_items x b a (remap_items x a b r) ≡ r
  remap_items-returns x a b r p q no_items = refl
  remap_items-returns x a b (item v r) p q (an_item t u) =
      let e = remap_rooted_paths-returns x a b v p q t in
      let f = remap_items-returns x a b r p q u in rw (e, f) refl

  remap_fields-returns :
      (x : Paths) (a b : String) (m : Fields)
      → IsRoot x a
      → IsRoot x b
      → FieldsPortable x a b m
      → remap_fields x b a (remap_fields x a b m) ≡ m
  remap_fields-returns x a b m p q no_fields = refl
  remap_fields-returns x a b (field k v m) p q (a_field t u) =
      let e = remap_rooted_paths-returns x a b v p q t in
      let f = remap_fields-returns x a b m p q u in rw (e, f) refl

-- If a path that is plain under a root is, once it is joined to it, absolute and relative to the root
-- again, for the caller's root and for the worktree, then a state is mapped to the worktree and back
-- without a change, provided that each of its texts is no absolute path, is a path below the caller's
-- root that is plain under both roots, or is a path outside both.
pub remap_candidate-isolated :
    (x : Paths) (caller_root worktree : String) (state : Fields)
    → IsRoot x caller_root
    → IsRoot x worktree
    → FieldsPortable x caller_root worktree state
    → remap_candidate x caller_root worktree (isolated x caller_root worktree state) ≡ state
remap_candidate-isolated x a b state p q t = remap_fields-returns x a b state p q t
