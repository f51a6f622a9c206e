-- ===== src/Paper/Streams.antt =====
-- The streams that `validate_observation` groups the rows into.
use the_pass.Prelude.{
  Bool, true, false, List, [], ◌∷◌, ◌++◌, ◌≡◌, refl, sym, ap, ◌∙◌, eq_iff, arith, select,
  if◌then◌else◌, &&-eq-true, append-nil, append_assoc, Bool-cases, inl, inr,
}
use the_pass.Paper.Observation.{CanonicalEvent, Key, key_of, key_eq, add_to, group_from}

key_eq→eq : (a b : Key) → key_eq a b ≡ true → a ≡ b
key_eq→eq a b h =
    let p = &&-eq-true _ _ h in
    let q = &&-eq-true _ _ p.0 in
    let r = &&-eq-true _ _ q.0 in
    same ((eq_iff _ _).0 r.0) ((eq_iff _ _).0 r.1) ((eq_iff _ _).0 q.1) ((eq_iff _ _).0 p.1)
  where
    same :
        a.source ≡ b.source
        → a.venue ≡ b.venue
        → a.instrument_id ≡ b.instrument_id
        → a.event_type ≡ b.event_type
        → a ≡ b
    same p q r s i = record { source = p i; venue = q i; instrument_id = r i; event_type = s i }

-- The rows of a stream, as the groups have them.
abbrev pub rows_of : Key → List (Key × List CanonicalEvent) → List CanonicalEvent
rows_of k [] = []
rows_of k ((j, es) ∷ g) = if key_eq k j then es else rows_of k g

abbrev pub is_in : Key → CanonicalEvent → Bool
is_in k e = key_eq k (key_of e)

-- Keys that are equal to a third are equal to the same keys.
key_eq-same : (k a j : Key) → key_eq a j ≡ true → key_eq k j ≡ key_eq k a
key_eq-same k a j h = ap (key_eq k) (sym (key_eq→eq a j h))

key_eq-other : (k a j : Key) → key_eq a j ≡ false → key_eq k j ≡ true → key_eq k a ≡ false
key_eq-other k a j h q = elim (Bool-cases (key_eq k a)) [
  | inl r ↦ let s = ap (λ x. key_eq x j) (sym (key_eq→eq k a r)) in cc
  | inr r ↦ r
]

-- One step of the grouping, by the three comparisons of keys.
step :
    (a b c : Bool) (e : CanonicalEvent) (es x y : List CanonicalEvent)
    → (a ≡ true → b ≡ c)
    → (a ≡ false → b ≡ true → c ≡ false)
    → y ≡ (if c then x ++ e ∷ [] else x)
    → (if a then (if b then es ++ e ∷ [] else x) else (if b then es else y))
      ≡ (if c then (if b then es else x) ++ e ∷ [] else (if b then es else x))
step a b c e es x y f g h = ground arith

push :
    (a : Bool) (k : Key) (u v : List (Key × List CanonicalEvent))
    → rows_of k (if a then u else v) ≡ (if a then rows_of k u else rows_of k v)
push true k u v = refl
push false k u v = refl

rows_of-add_to :
    (k : Key) (e : CanonicalEvent) (g : List (Key × List CanonicalEvent))
    → rows_of k (add_to e g) ≡ (if is_in k e then rows_of k g ++ e ∷ [] else rows_of k g)
rows_of-add_to k e [] = refl
rows_of-add_to k e ((j, es) ∷ g) =
    push (key_eq (key_of e) j) k ((j, es ++ e ∷ []) ∷ g) ((j, es) ∷ add_to e g)
    ∙ step (key_eq (key_of e) j) (key_eq k j) (is_in k e) e es (rows_of k g)
        (rows_of k (add_to e g)) (key_eq-same k (key_of e) j) (key_eq-other k (key_of e) j)
        (rows_of-add_to k e g)

pub rows_of-group_from :
    (k : Key) (g : List (Key × List CanonicalEvent)) (es : List CanonicalEvent)
    → rows_of k (group_from g es) ≡ rows_of k g ++ select (is_in k) es
unfolding group_from
rows_of-group_from k g [] = sym (append-nil (rows_of k g))
rows_of-group_from k g (e ∷ es) =
    rows_of-group_from k (add_to e g) es
    ∙ ap (λ x. x ++ select (is_in k) es) (rows_of-add_to k e g)
    ∙ tail (is_in k e) (rows_of k g) (select (is_in k) es)
  where
    tail :
        (c : Bool) (x y : List CanonicalEvent)
        → (if c then x ++ e ∷ [] else x) ++ y ≡ x ++ (if c then e ∷ y else y)
    tail true x y = append_assoc x (e ∷ []) y
    tail false x y = refl
