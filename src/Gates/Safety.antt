-- ===== src/Gates/Safety.antt =====
-- What stands behind every gate that passes: an independent reviewer and a verified signature.
use the_pass.Prelude.{
  ℕ, String, Bool, false, Option, none, some, List, [], ◌≡◌, inl, inr, arith, ap, ◌∙◌, sym, str_eq,
  append-eq-nil, if◌then◌else◌, Bool-cases,
}
use the_pass.Prelude.Result.{Result, ok, >>=-eq-ok}
use the_pass.Json.{text, Fields, get}
use the_pass.Ledger.Host.{Host, GateRequest}
use the_pass.Ledger.Issues.{LedgerError}
use the_pass.Gates.GateWorld.{GateWorld}
use the_pass.Gates.Attestation.{attestation_path, verify_reviewer_attestation}
use the_pass.Gates.Registry.{verify_trusted_reviewer_registry}
use the_pass.Gates.Evidence.{
  normalize_identity, required, distinct, owner_of, reviewer_identity_blockers, Review,
  gate_attestation_artifact,
}
use the_pass.Gates.Evaluate.{GateEvaluation, review_gate, decision_of, evaluate_gate}
use the_pass.Gates.Passing.{IsWeighed, id_of, Evaluated, evaluate_gate-Evaluated, passed, stopped}
use the_pass.Gates.Decisions.{
  code_of, IsDecided, passes, stops, evaluate_gate-IsDecided, outcome-IsWeighed,
}
use the_pass.Gates.Requirements.{report_if-eq-nil}
use the_pass.Gates.Reviewed.{judge_outcome-review}
use the_pass.Gates.Attested.{IsAttested, verify_reviewer_attestation-IsAttested}
use the_pass.Gates.Trusted.{
  IsTrusted, needs_attestation, verify_trusted_reviewer_registry-IsTrusted,
}

-- The reviewer is not the owner that an artifact of the package names.
pub record DiffersFromOwner (w : GateWorld) (pkg reviewer artifact_type : String) : Type 0 where
  pub owner : String
  pub names : owner_of w pkg artifact_type ≡ ok (some owner)
  pub differs : str_eq (normalize_identity w reviewer) (normalize_identity w owner) ≡ false

-- What a review without blockers has behind it.
pub record IsReviewed (w : GateWorld) (pkg gate package_id reviewer : String) : Type 0 where
  pub spec : DiffersFromOwner w pkg reviewer "strategy_spec"
  pub receipt : DiffersFromOwner w pkg reviewer "run_receipt"
  pub document : Fields
  pub attested : IsAttested w pkg gate package_id reviewer document
  pub trusted : IsTrusted w pkg document

ok-injective {ℓ} : {A : Type ℓ} (a b : A) → ◌≡◌ {A = Result LedgerError A} (ok a) (ok b) → a ≡ b
ok-injective a b q = cc

owner_differs :
    (w : GateWorld) (pkg reviewer artifact_type label : String) (o : Option String)
    → owner_of w pkg artifact_type ≡ ok o
    → required label o ≡ []
    → distinct w reviewer label o ≡ []
    → DiffersFromOwner w pkg reviewer artifact_type
owner_differs w pkg reviewer artifact_type label none e p q = cc
owner_differs w pkg reviewer artifact_type label (some owner) e p q = record {
  owner = owner;
  names = e;
  differs = report_if-eq-nil _ _ q;
}

owners_differ :
    (w : GateWorld) (pkg reviewer : String)
    → reviewer_identity_blockers w pkg reviewer ≡ ok []
    → DiffersFromOwner w pkg reviewer "strategy_spec"
      × DiffersFromOwner w pkg reviewer "run_receipt"
unfolding reviewer_identity_blockers
owners_differ w pkg reviewer h =
    let a = >>=-eq-ok _ _ h in
    let b = >>=-eq-ok _ _ a.2 in
    let p = append-eq-nil (required "StrategySpec" a.0) _ (ok-injective _ _ b.2) in
    let q = append-eq-nil (required "run receipt" b.0) _ p.1 in
    let t = append-eq-nil (distinct w reviewer "StrategySpec" a.0) _ q.1 in
    (
      owner_differs w pkg reviewer "strategy_spec" "StrategySpec" a.0 a.1 p.0 t.0,
      owner_differs w pkg reviewer "run_receipt" "run receipt" b.0 b.1 q.0 t.1,
    )

-- By the two results of the attestation.
reviewed_document :
    (w : GateWorld) (pkg gate reviewer package_id : String) (signed : Option Fields × List String)
    (trusted : Fields × List String)
    → verify_reviewer_attestation w pkg gate package_id reviewer ≡ ok signed
    → verify_trusted_reviewer_registry w pkg signed.0 ≡ ok trusted
    → signed.1 ≡ []
    → trusted.1 ≡ []
    → (d : Fields) × IsAttested w pkg gate package_id reviewer d × IsTrusted w pkg d
reviewed_document w pkg gate reviewer package_id (none, bs) (t, ts) e f p q =
    absurd (needs_attestation w pkg t (f ∙ ap (λ x. ok (t, x)) q))
reviewed_document w pkg gate reviewer package_id (some d, bs) (t, ts) e f p q = (
  d,
  verify_reviewer_attestation-IsAttested w pkg gate package_id reviewer d
      (e ∙ ap (λ x. ok (some d, x)) p),
  verify_trusted_reviewer_registry-IsTrusted w pkg d t (f ∙ ap (λ x. ok (t, x)) q),
)

IsAttested-review :
    (w : GateWorld) (pkg gate reviewer package_id : String) (review : Review)
    → gate_attestation_artifact w pkg gate reviewer package_id ≡ ok review
    → review.blockers ≡ []
    → (d : Fields) × IsAttested w pkg gate package_id reviewer d × IsTrusted w pkg d
unfolding gate_attestation_artifact
IsAttested-review w pkg gate reviewer package_id review h n =
    elim (Bool-cases (w.host.is_file (attestation_path w pkg gate))) [
      | inr f ↦
          let q = ok-injective _ _ (rw (f, gate_attestation_artifact) at h) in
          let b = ap (λ x. x.blockers) q ∙ n in cc
      | inl f ↦
          let a = >>=-eq-ok _ _ (rw (f, gate_attestation_artifact) at h) in
          let b = >>=-eq-ok _ _ a.2 in
          let q = ap (λ x. x.blockers) (ok-injective _ _ b.2) ∙ n in
          let p = append-eq-nil _ _ q in
          let t = append-eq-nil _ _ p.1 in
          reviewed_document w pkg gate reviewer package_id a.0 b.0 a.1 b.1 p.0 t.0
    ]

review_gate-IsReviewed :
    (w : GateWorld) (r : GateRequest) (package_id : String) (review : Review)
    → str_eq r.gate "live_gate" ≡ false
    → review_gate w r package_id ≡ ok review
    → review.blockers ≡ []
    → IsReviewed w r.package_dir r.gate package_id r.reviewer
unfolding review_gate
review_gate-IsReviewed w r package_id review l h n =
    let a = >>=-eq-ok _ _ (rw (l, review_gate) at h) in
    let b = >>=-eq-ok _ _ a.2 in
    let p = append-eq-nil _ _ (ap (λ x. x.blockers) (ok-injective _ _ b.2) ∙ n) in
    let o = owners_differ w r.package_dir r.reviewer (a.1 ∙ ap ok p.0) in
    let s = IsAttested-review w r.package_dir r.gate r.reviewer package_id b.0 b.1 p.1 in
    record { spec = o.0; receipt = o.1; document = s.0; attested = s.1; trusted = s.2 }

-- The outcome of a decision that passes has no blockers.
pub passing :
    {w : GateWorld} {v : Host} {r : GateRequest} {e : GateEvaluation} (s : Evaluated w v r e)
    → evaluate_gate w v r ≡ ok e
    → e.exit_code ≡ 0
    → (s.outcome.blockers ≡ []) × (str_eq r.gate "live_gate" ≡ false)
passing {w} {v} {r} {e} s h z =
    (weighed (outcome-IsWeighed s), decided (evaluate_gate-IsDecided w v r e h))
  where
    not_zero : (b : Bool) → ◌≡◌ {A = ℕ} (if b then 3 else 2) 0 → ⊥
    not_zero b q = ground arith

    decided : IsDecided r e → str_eq r.gate "live_gate" ≡ false
    decided (passes l x y q) = l
    decided (stops x y q) = absurd (not_zero _ (sym q ∙ z))

    weighed : IsWeighed s.outcome → s.outcome.blockers ≡ []
    weighed (passed p q) = q
    weighed (stopped p q) = absurd (
        not_zero (str_eq r.gate "live_gate") (sym (ap (λ b. code_of b r.gate) p) ∙ sym s.exits ∙ z))

-- A gate evaluation with exit code 0 is for a package whose reviewer is none of its two owners and
-- has signed: the attestation names the gate, the package id of the decision and the reviewer, its
-- signature verifies under a key that is valid at the time of signing and bound to the reviewer by
-- the registry of the package, and a trusted registry outside the package authorizes that key.
pub evaluate_gate-IsReviewed :
    (w : GateWorld) (verifier : Host) (r : GateRequest) (e : GateEvaluation)
    → evaluate_gate w verifier r ≡ ok e
    → e.exit_code ≡ 0
    → (package_id : String) × (get "package_id" e.decision ≡ text package_id)
      × IsReviewed w r.package_dir r.gate package_id r.reviewer
unfolding decision_of
evaluate_gate-IsReviewed w v r e h z =
    let s = evaluate_gate-Evaluated w v r e h in
    let p = passing s h z in
    let n =
      judge_outcome-review w v r s.policy s.run_entry s.verdict _ s.review.blockers s.outcome
        s.judges p.0 in
    (
      id_of s.run_entry,
      ap (get "package_id") s.decides,
      review_gate-IsReviewed w r (id_of s.run_entry) s.review p.1 s.reviews n,
    )
