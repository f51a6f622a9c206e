-- ===== src/Ledger/Chain.antt =====
-- A specification of a sound ledger by its links, and the verifier of Entries against it.
use the_pass.Prelude.{
  ℕ, ◌+◌, Bool, true, false, not, ◌&&◌, List, [], ◌∷◌, ◌≡◌, refl, sym, ◌∙◌, arith, ◌↔◌,
  append-eq-nil,
}
use the_pass.Json.{Value, null, text, Fields, get, value_eq}
use the_pass.Json.Equality.{value_eq→eq, value_eq_refl}
use the_pass.Ledger.Host.{Host}
use the_pass.Ledger.Issues.{Fault}
use the_pass.Ledger.Entries.{
  is_v2, is_kind, hash_entry, is_supported_schema, is_supported_kind, is_complete_registration,
  report_if, shape_issues, entry_issues, verify_entries_from, verify_ledger_entries,
}

-- What an entry has to be by itself.
pub record IsShaped (e : Fields) : Type 0 where
  pub schema : is_supported_schema e ≡ true
  pub kind : is_v2 e ≡ true → is_supported_kind e ≡ true
  pub registration :
      is_v2 e ≡ true
      → is_kind "robustness_registration" e ≡ true
      → is_complete_registration e ≡ true

-- Every entry is well shaped, names the hash of the entry before it, and carries its own hash.
pub data IsChain (h : Host) : Value → List Fields → Type 0 where
  nil : {v : Value} → IsChain h v []
  link :
      {v : Value} {e : Fields} {es : List Fields}
      → IsShaped e
      → get "previous_hash" e ≡ v
      → get "entry_hash" e ≡ text (hash_entry h e)
      → IsChain h (text (hash_entry h e)) es
      → IsChain h v (e ∷ es)

pub report_if-eq-nil : (b : Bool) (i : ℕ) (f : Fault) → report_if b i f ≡ [] → b ≡ false
report_if-eq-nil true i f h = cc
report_if-eq-nil false i f h = refl

IsShaped-of_tests :
    (e : Fields) (s v k r c : Bool)
    → is_supported_schema e ≡ s
    → is_v2 e ≡ v
    → is_supported_kind e ≡ k
    → is_kind "robustness_registration" e ≡ r
    → is_complete_registration e ≡ c
    → not s ≡ false
    → v && not k ≡ false
    → v && r && not c ≡ false
    → IsShaped e
IsShaped-of_tests e true v k r c es ev ek er ec hs hk hr = record {
  schema = es;
  kind = λ p. ek ∙ kind v k (sym ev ∙ p) hk;
  registration = λ p q. ec ∙ complete v r c (sym ev ∙ p) (sym er ∙ q) hr;
}
  where
    kind : (v k : Bool) → v ≡ true → v && not k ≡ false → k ≡ true
    kind v k p q = ground arith

    complete : (v r c : Bool) → v ≡ true → r ≡ true → v && r && not c ≡ false → c ≡ true
    complete v r c p q w = ground arith
IsShaped-of_tests e false v k r c es ev ek er ec hs hk hr = cc

pub shape_issues-IsShaped : (i : ℕ) (e : Fields) → shape_issues i e ≡ [] → IsShaped e
unfolding shape_issues
shape_issues-IsShaped i e h =
    let p = append-eq-nil _ _ h in
    let q = append-eq-nil _ _ p.1 in
    IsShaped-of_tests e _ _ _ _ _ refl refl refl refl refl (report_if-eq-nil _ _ _ p.0)
      (report_if-eq-nil _ _ _ q.0) (report_if-eq-nil _ _ _ q.1)

report_if-false : (b : Bool) (i : ℕ) (f : Fault) → b ≡ false → report_if b i f ≡ []
report_if-false b i f p = rw p

shape_tests_false :
    (s v k r c : Bool)
    → s ≡ true
    → (v ≡ true → k ≡ true)
    → (v ≡ true → r ≡ true → c ≡ true)
    → (not s ≡ false) × (v && not k ≡ false) × (v && r && not c ≡ false)
shape_tests_false s false k r c p q w = ground arith
shape_tests_false s true k false c p q w = ground (arith, q refl)
shape_tests_false s true k true c p q w = ground (arith, q refl, w refl refl)

pub IsShaped-shape_issues : (i : ℕ) (e : Fields) → IsShaped e → shape_issues i e ≡ []
unfolding shape_issues
IsShaped-shape_issues i e s =
    let p = shape_tests_false _ _ _ _ _ s.schema s.kind s.registration in
    rw (report_if-false _ i _ p.0, report_if-false _ i _ p.1, report_if-false _ i _ p.2)

-- The checks of one entry find nothing exactly if it is shaped and linked as a chain asks.
pub entry_issues-eq-nil_iff :
    (h : Host) (i : ℕ) (v : Value) (e : Fields)
    → (entry_issues h i v e ≡ [])
      ↔ (IsShaped e × (get "previous_hash" e ≡ v) × (get "entry_hash" e ≡ text (hash_entry h e)))
unfolding entry_issues
entry_issues-eq-nil_iff h i v e = (forth, back)
  where
    equal : (a b : Value) → not (value_eq a b) ≡ false → a ≡ b
    equal a b p = value_eq→eq a b (ground arith)

    forth :
        entry_issues h i v e ≡ []
        → IsShaped e × (get "previous_hash" e ≡ v) × (get "entry_hash" e ≡ text (hash_entry h e))
    forth n =
        let p = append-eq-nil _ _ n in
        let q = append-eq-nil _ _ p.1 in
        (
          shape_issues-IsShaped i e p.0,
          equal _ _ (report_if-eq-nil _ _ _ q.0),
          equal _ _ (report_if-eq-nil _ _ _ q.1),
        )

    back :
        IsShaped e × (get "previous_hash" e ≡ v) × (get "entry_hash" e ≡ text (hash_entry h e))
        → entry_issues h i v e ≡ []
    back (s, p, q) = rw (IsShaped-shape_issues i e s, p, q, value_eq_refl, value_eq_refl)

verify_entries_from-IsChain :
    (h : Host) (i : ℕ) (v : Value) (es : List Fields)
    → verify_entries_from h i v es ≡ []
    → IsChain h v es
unfolding verify_entries_from
verify_entries_from-IsChain h i v [] n = nil
verify_entries_from-IsChain h i v (e ∷ es) n =
    let p = append-eq-nil _ _ n in
    let q = (entry_issues-eq-nil_iff h i v e).0 p.0 in
    link q.0 q.1 q.2
      (verify_entries_from-IsChain h (i + 1) (text (hash_entry h e)) es (rw q.2 at p.1))

IsChain-verify_entries_from :
    (h : Host) (i : ℕ) {v : Value} {es : List Fields}
    → IsChain h v es
    → verify_entries_from h i v es ≡ []
unfolding verify_entries_from
IsChain-verify_entries_from h i nil = refl
IsChain-verify_entries_from h i {v} (link {e = e} s p q c) =
    rw ((entry_issues-eq-nil_iff h i v e).1 (s, p, q), q) (IsChain-verify_entries_from h (i + 1) c)

-- `verify_ledger_entries` finds nothing exactly if the entries form a chain from the null hash:
-- every entry well shaped, naming the hash of the one before it, and carrying its own hash.
pub verify_ledger_entries-eq-nil_iff :
    (h : Host) (es : List Fields) → (verify_ledger_entries h es ≡ []) ↔ IsChain h null es
unfolding verify_ledger_entries
verify_ledger_entries-eq-nil_iff h es =
    (verify_entries_from-IsChain h 0 null es, IsChain-verify_entries_from h 0)
