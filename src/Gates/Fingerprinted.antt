-- ===== src/Gates/Fingerprinted.antt =====
-- gates.py: the fingerprints that an audit report records for the artifacts it covers.
use mathlib.Core.Path.{subst}
use the_pass.Prelude.{
  String, true, List, [], ◌∷◌, ◌≡◌, inl, inr, refl, sym, ap, ◌∙◌, str_eq, eq_iff, mem_text,
  append-eq-nil, Bool-cases,
}
use the_pass.Prelude.Result.{Result, ok, >>=-eq-ok}
use the_pass.Json.{Value, text, Fields, nil, get, is_list, list_of}
use the_pass.Json.Equality.{value_eq→eq}
use the_pass.Ledger.Issues.{LedgerError}
use the_pass.Ledger.Package.{load, artifact_identity_sha256}
use the_pass.Gates.GateWorld.{GateWorld, names_of}
use the_pass.Gates.Audit.{
  required_evidence, fingerprint_rows, check_fingerprints, check_audit_evidence,
}
use the_pass.Gates.Requirements.{report_if-not-eq-nil}

-- The first file of a required artifact has the fingerprint that the audit recorded for its name.
pub record IsFingerprinted (w : GateWorld) (pkg : String) (rows : Fields) (type name : String)
    : Type 0 where
  pub document : Value
  pub loads : load w.host (w.host.within pkg name) ≡ ok document
  pub recorded :
      get name rows ≡ text (artifact_identity_sha256 w.host type (w.host.within pkg name) document)

pub same_list :
    (a b : List String) → ◌≡◌ {A = Result LedgerError (List String)} (ok a) (ok b) → a ≡ b
same_list a b z = cc

-- The round of one artifact type.
check_fingerprints-round :
    (w : GateWorld) (pkg : String) (rows : Fields) (t : String) (ts : List String)
    (names : List String)
    → names_of w pkg t ≡ names
    → check_fingerprints w pkg rows (t ∷ ts) ≡ ok []
    → (check_fingerprints w pkg rows ts ≡ ok [])
      × ((name : String) (more : List String)
          → names ≡ name ∷ more
          → IsFingerprinted w pkg rows t name)
unfolding check_fingerprints
check_fingerprints-round w pkg rows t ts [] e h =
    let p = >>=-eq-ok (check_fingerprints w pkg rows ts) _ (rw (e, check_fingerprints) at h) in
    let q = append-eq-nil _ _ (same_list _ _ p.2) in
    (p.1 ∙ ap ok q.1, λ n m z. absurd (no_names n m z))
  where
    no_names : (n : String) (m : List String) → [] ≡ n ∷ m → ⊥
    no_names n m z = cc
check_fingerprints-round w pkg rows t ts (file ∷ files) e h =
    let p = >>=-eq-ok (load w.host (w.host.within pkg file)) _ (rw (e, check_fingerprints) at h) in
    let q = >>=-eq-ok (check_fingerprints w pkg rows ts) _ p.2 in
    let c = append-eq-nil _ _ (same_list _ _ q.2) in
    let found : IsFingerprinted w pkg rows t file = record {
      document = p.0;
      loads = p.1;
      recorded = value_eq→eq _ _ (report_if-not-eq-nil _ _ c.0);
    } in
    (q.1 ∙ ap ok c.1, λ n m z. rw (sym (first z)) found)
  where
    first : {x y : String} {xs ys : List String} → x ∷ xs ≡ y ∷ ys → x ≡ y
    first z = cc

pub check_fingerprints-IsFingerprinted :
    (w : GateWorld) (pkg : String) (rows : Fields) (ts : List String) (t name : String)
    (more : List String)
    → check_fingerprints w pkg rows ts ≡ ok []
    → mem_text t ts ≡ true
    → names_of w pkg t ≡ name ∷ more
    → IsFingerprinted w pkg rows t name
check_fingerprints-IsFingerprinted w pkg rows [] t name more h m e = cc
check_fingerprints-IsFingerprinted w pkg rows (s ∷ ts) t name more h m e =
    let p = check_fingerprints-round w pkg rows s ts (names_of w pkg s) refl h in
    elim (Bool-cases (str_eq t s)) [
      | inl b ↦
          let q = (eq_iff t s).0 b in
          subst (λ x. IsFingerprinted w pkg rows x name) (sym q)
            (p.1 name more (ap (names_of w pkg) (sym q) ∙ e))
      | inr b ↦ check_fingerprints-IsFingerprinted w pkg rows ts t name more p.0 (rw b at m) e
    ]

-- The evidence of an audit that gives no blocker.
pub check_audit_evidence-rows :
    (w : GateWorld) (pkg gate : String) (d : Fields)
    → check_audit_evidence w pkg gate d ≡ ok []
    → check_fingerprints w pkg
        (fingerprint_rows nil (list_of (get "evidence_fingerprints" d)))
        (required_evidence gate)
      ≡ ok []
unfolding check_audit_evidence
check_audit_evidence-rows w pkg gate d h =
    elim (Bool-cases (is_list (get "evidence_fingerprints" d))) [
      | inr b ↦ let q = same_list _ _ (rw (b, check_audit_evidence) at h) in cc
      | inl b ↦
          let p = >>=-eq-ok _ _ (rw (b, check_audit_evidence) at h) in
          let q = append-eq-nil _ _ (same_list _ _ p.2) in p.1 ∙ ap ok q.1
    ]
