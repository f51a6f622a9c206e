-- ===== src/Gates/Attested.antt =====
-- attestation.py: what `verify_reviewer_attestation` shows when it returns no blockers.
use mathlib.Core.Path.{subst}
use the_pass.Prelude.{
  String, true, false, Option, none, some, List, [], ◌∷◌, ◌++◌, ◌≡◌, inl, inr, refl, ap, ◌∙◌, sym,
  is_nil, select, append-eq-nil, if◌then◌else◌, Bool-cases, map,
}
use the_pass.Prelude.Result.{Result, ok, ◌>>=◌, >>=-eq-ok}
use the_pass.Json.{Value, object, Fields, get, is_text, object_at, list_of, as_object, equals_int}
use the_pass.Ledger.Issues.{LedgerError}
use the_pass.Ledger.Package.{load}
use the_pass.Gates.GateWorld.{GateWorld}
use the_pass.Gates.Attestation.{
  attestation_path, registry_snapshot_path, check_key, check_binding, has_key_id, check_registry,
  check_identity, check_signer, verify_reviewer_attestation,
}
use the_pass.Gates.Requirements.{report_if-not-eq-nil}
use the_pass.Gates.Signed.{IsSigned, check_key-IsSigned}

-- The registry has one entry of the signer's key, the entry names the reviewer and the signature
-- verifies under the key.
pub record IsBound (w : GateWorld) (d : Fields) (registry : Fields) (reviewer : String)
    : Type 0 where
  pub entry : Fields
  pub only :
      select (has_key_id (get "key_id" (object_at "signer" d))) (list_of (get "keys" registry))
      ≡ object entry ∷ []
  pub fingerprint :
      is_text
        (w.stable_fingerprint (object registry))
        (get "registry_fingerprint" (object_at "signer" d))
      ≡ true
  pub binding : check_binding d entry reviewer ≡ []
  pub signed : IsSigned w d entry

-- The entry of the selected rows, by their number.
sole_entry :
    (w : GateWorld) (d : Fields) (reviewer : String) (rows : List Value)
    → elim rows as (λ _. List String) [
      | [] ↦ "reviewer attestation signer key is not unique in the registry" ∷ []
      | row ∷ more ↦ elim (as_object row) [
        | none ↦ "reviewer attestation signer key is not unique in the registry" ∷ []
        | some entry ↦
            if is_nil more
            then check_binding d entry reviewer ++ check_key w d entry
            else "reviewer attestation signer key is not unique in the registry" ∷ []
      ]
    ]
      ≡ []
    → (entry : Fields) × (rows ≡ object entry ∷ [])
      × (check_binding d entry reviewer ≡ [])
      × IsSigned w d entry
sole_entry w d reviewer [] h = cc
sole_entry w d reviewer (object entry ∷ []) h =
    let p = append-eq-nil _ _ h in (entry, refl, p.0, check_key-IsSigned w d entry p.1)
sole_entry w d reviewer (object entry ∷ (x ∷ xs)) h = cc
sole_entry w d reviewer (v ∷ xs) h = cc

check_registry-IsBound :
    (w : GateWorld) (d registry : Fields) (reviewer : String)
    → check_registry w d registry reviewer ≡ []
    → IsBound w d registry reviewer
unfolding check_registry
check_registry-IsBound w d registry reviewer h =
    let p = append-eq-nil _ _ h in
    let q = append-eq-nil _ _ p.1 in
    let e = sole_entry w d reviewer _ q.1 in
    record {
      entry = e.0;
      only = e.1;
      fingerprint = report_if-not-eq-nil _ _ q.0;
      binding = e.2;
      signed = e.3;
    }

-- An attestation that is accepted: it names the gate, the package and the reviewer, is not of the
-- first schema, and the registry beside it binds the key of its signature to the reviewer.
pub record IsAttested (w : GateWorld) (pkg gate package_id reviewer : String) (d : Fields)
    : Type 0 where
  pub registry : Fields
  pub loads : load w.host (attestation_path w pkg gate) ≡ ok (object d)
  pub identity : check_identity d gate package_id reviewer ≡ []
  pub current : equals_int 1 (get "schema_version" d) ≡ false
  pub loads_registry : load w.host (registry_snapshot_path w pkg gate) ≡ ok (object registry)
  pub bound : IsBound w d registry reviewer

ok-injective :
    (a b : List String) → ◌≡◌ {A = Result LedgerError (List String)} (ok a) (ok b) → a ≡ b
ok-injective a b q = cc

ok-pair :
    (x y : Option Fields × List String)
    → ◌≡◌ {A = Result LedgerError (Option Fields × List String)} (ok x) (ok y)
    → x ≡ y
ok-pair x y q = cc

map-eq-nil : (f : String → String) (ts : List String) → map f ts ≡ [] → is_nil ts ≡ true
map-eq-nil f [] h = refl
map-eq-nil f (t ∷ ts) h = cc

-- The registry is read as an object.
check_signer-IsBound :
    (w : GateWorld) (pkg : String) (d : Fields) (gate reviewer : String)
    → check_signer w pkg d gate reviewer ≡ ok []
    → (equals_int 1 (get "schema_version" d) ≡ false)
      × (registry : Fields) × (load w.host (registry_snapshot_path w pkg gate)
          ≡ ok (object registry))
      × IsBound w d registry reviewer
unfolding check_signer
check_signer-IsBound w pkg d gate reviewer h =
    elim (Bool-cases (equals_int 1 (get "schema_version" d))) [
      | inl s ↦ let q = rw (s, check_signer) at h in absurd (not_empty _ _ q)
      | inr s ↦
          elim (Bool-cases
            (is_nil (w.issues (registry_snapshot_path w pkg gate) "reviewer_key_registry"))) [
              | inr n ↦
                  let q = ok-injective _ _ (rw (s, n, check_signer) at h) in
                  let y = map-eq-nil _ _ q in cc
              | inl n ↦
                  let a = >>=-eq-ok _ _ (rw (s, n, check_signer) at h) in
                  let b = read a.0 (ok-injective _ _ a.2) in (s, b.0, a.1 ∙ ap ok b.1, b.2)
            ]
    ]
  where
    not_empty :
        (t : String) (ts : List String)
        → ◌≡◌ {A = Result LedgerError (List String)} (ok (t ∷ ts)) (ok [])
        → ⊥
    not_empty t ts q = cc

    read :
        (v : Value)
        → elim (as_object v) as (λ _. List String) [
          | none ↦ "reviewer key registry must be an object" ∷ []
          | some registry ↦ check_registry w d registry reviewer
        ]
          ≡ []
        → (registry : Fields) × (v ≡ object registry) × IsBound w d registry reviewer
    read (object registry) q = (registry, refl, check_registry-IsBound w d registry reviewer q)
    read v q = cc

-- A signed attestation without blockers, from its document on.
IsAttested-document :
    (w : GateWorld) (pkg gate package_id reviewer : String) (d : Fields)
    (a : Option Fields × List String)
    → load w.host (attestation_path w pkg gate) ≡ ok (object d)
    → (check_signer w pkg d gate reviewer >>= λ blockers.
        ok (some d, check_identity d gate package_id reviewer ++ blockers))
      ≡ ok a
    → a.1 ≡ []
    → (a.0 ≡ some d) × IsAttested w pkg gate package_id reviewer d
IsAttested-document w pkg gate package_id reviewer d a l h n =
    let s = >>=-eq-ok _ _ h in
    let q = ok-pair _ _ s.2 in
    let p = append-eq-nil _ _ (ap (λ x. x.1) q ∙ n) in
    let b = check_signer-IsBound w pkg d gate reviewer (s.1 ∙ ap ok p.1) in
    (
      sym (ap (λ x. x.0) q),
      record {
        registry = b.1;
        loads = l;
        identity = p.0;
        current = b.0;
        loads_registry = b.2;
        bound = b.3;
      },
    )

-- An accepted attestation: no blockers and a document.
pub verify_reviewer_attestation-IsAttested :
    (w : GateWorld) (pkg gate package_id reviewer : String) (d : Fields)
    → verify_reviewer_attestation w pkg gate package_id reviewer ≡ ok (some d, [])
    → IsAttested w pkg gate package_id reviewer d
unfolding verify_reviewer_attestation
verify_reviewer_attestation-IsAttested w pkg gate package_id reviewer d h =
    elim (Bool-cases (is_nil (w.issues (attestation_path w pkg gate) "reviewer_attestation"))) [
      | inr n ↦ absurd (no_document _ (rw (n, verify_reviewer_attestation) at h))
      | inl n ↦ let a = >>=-eq-ok _ _ (rw (n, verify_reviewer_attestation) at h) in read a.0 a.1 a.2
    ]
  where
    no_document :
        (ts : List String)
        → ◌≡◌ {A = Result LedgerError (Option Fields × List String)}
            (ok (none, ts))
            (ok (some d, []))
        → ⊥
    no_document ts q = let e = ap (λ x. x.0) (ok-pair _ _ q) in cc

    read :
        (v : Value)
        → load w.host (attestation_path w pkg gate) ≡ ok v
        → elim (as_object v) as (λ _. Result LedgerError (Option Fields × List String)) [
          | none ↦ ok (none, "reviewer attestation must be an object" ∷ [])
          | some m ↦ check_signer w pkg m gate reviewer >>= λ blockers.
              ok (some m, check_identity m gate package_id reviewer ++ blockers)
        ]
          ≡ ok (some d, [])
        → IsAttested w pkg gate package_id reviewer d
    read (object m) l q =
        let t = IsAttested-document w pkg gate package_id reviewer m (some d, []) l q refl in
        let e : m ≡ d = cc (t.0) in subst (λ x. IsAttested w pkg gate package_id reviewer x) e t.1
    read v l q = absurd (no_document _ q)
