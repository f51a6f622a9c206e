-- ===== src/Gates/Audited.antt =====
-- gates.py: the audit report and the earlier gate behind a passed paper gate or risk review.
use mathlib.Core.Path.{subst}
use Prim.Native.String.{◌++◌ as text_append}
use the_pass.Prelude.{
  String, Bool, true, false, Option, none, some, List, [], ◌∷◌, ◌++◌, ◌≡◌, ◌≢◌, ◌⊎◌, inl, inr, refl,
  sym, ap, ◌∙◌, str_eq, eq_iff, any_of, mem_text, is_nil, map, if◌then◌else◌, append-eq-nil,
  Bool-cases, Option-cases,
}
use the_pass.Prelude.Result.{Result, ok, ◌>>=◌, >>=-eq-ok}
use the_pass.Json.{Value, text, object, Fields, nil, get, is_text, list_of, as_object}
use the_pass.Ledger.Host.{Host, GateRequest}
use the_pass.Ledger.Issues.{Issue, LedgerError}
use the_pass.Ledger.Entries.{read_ledger_entries}
use the_pass.Ledger.Package.{load}
use the_pass.Ledger.Semantics.{verify_ledger_file}
use the_pass.Ledger.Append.{is_passage, has_passed_gate}
use the_pass.Gates.GateWorld.{GateWorld, names_of}
use the_pass.Gates.Audit.{
  is_blocking, required_evidence, fingerprint_rows, check_report, check_audit_evidence,
  gate_audit_artifact,
}
use the_pass.Gates.Judgement.{earlier_gate_passes, prior_gate_passes}
use the_pass.Gates.Evaluate.{GateEvaluation, evaluate_gate}
use the_pass.Gates.Requirements.{report_if-eq-nil, report_if-not-eq-nil}
use the_pass.Gates.Passing.{id_of}
use the_pass.Gates.Order.{evaluate_gate-PaperPass, evaluate_gate-RiskPass}
use the_pass.Gates.Fingerprinted.{
  IsFingerprinted, check_fingerprints-IsFingerprinted, check_audit_evidence-rows,
}

-- What an audit report that gives no blocker says.
pub record IsAudited (w : GateWorld) (pkg gate reviewer package_id : String) : Type 0 where
  pub name : String
  pub report : Fields
  pub only : names_of w pkg (text_append "audit_report." gate) ≡ name ∷ []
  pub loads : load w.host (w.host.within pkg name) ≡ ok (object report)
  pub target : get "target" report ≡ text gate
  pub reviewed : get "reviewer" report ≡ text reviewer
  pub exact : get "package_id" report ≡ text package_id
  pub passes : get "verdict" report ≡ text "pass"
  pub resolved : any_of is_blocking (list_of (get "findings" report)) ≡ false
  pub fingerprinted :
      (type file : String) (more : List String)
      → mem_text type (required_evidence gate) ≡ true
      → names_of w pkg type ≡ file ∷ more
      → IsFingerprinted w pkg
          (fingerprint_rows nil (list_of (get "evidence_fingerprints" report)))
          type
          file

is_text-eq : (t : String) (v : Value) → is_text t v ≡ true → v ≡ text t
is_text-eq t (text s) h = ap text (sym ((eq_iff t s).0 h))
is_text-eq t _ h = cc

-- The earlier gate has a passage, among the entries of the request or in a ledger that verifies.
pub record IsFollowed (v : Host) (r : GateRequest) (package_id gate : String) : Type 0 where
  pub entries : List Fields
  pub source :
      (r.entries ≡ some entries)
      ⊎ ((verify_ledger_file v r.ledger_path ≡ ok [])
          × (read_ledger_entries v r.ledger_path ≡ ok entries))
  pub recorded : any_of (is_passage v r.ledger_path package_id gate r.package_dir) entries ≡ true

prior_gate_passes-IsFollowed :
    (v : Host) (r : GateRequest) (id gate : String)
    → prior_gate_passes v r.ledger_path r.package_dir id gate ≡ ok true
    → IsFollowed v r id gate
unfolding prior_gate_passes has_passed_gate
prior_gate_passes-IsFollowed v r id gate h = elim (Bool-cases (v.exists r.ledger_path)) [
  | inr x ↦ let q : ok false ≡ ok true = rw (x, prior_gate_passes) at h in cc
  | inl x ↦
      let p = >>=-eq-ok (verify_ledger_file v r.ledger_path) _ (rw (x, prior_gate_passes) at h) in
      elim (Bool-cases (is_nil p.0)) [
        | inr n ↦ let q = rw n at p.2 in cc
        | inl n ↦
            let q = >>=-eq-ok (read_ledger_entries v r.ledger_path) _ (rw n at p.2) in
            record {
              entries = q.0;
              source = inr (p.1 ∙ ap ok (no_issues p.0 n), q.1);
              recorded = same _ _ q.2;
            }
      ]
]
  where
    no_issues : (xs : List Issue) → is_nil xs ≡ true → xs ≡ []
    no_issues [] z = refl
    no_issues (y ∷ ys) z = cc

    same : (a b : Bool) → ◌≡◌ {A = Result LedgerError Bool} (ok a) (ok b) → a ≡ b
    same a b z = cc

earlier_gate_passes-IsFollowed :
    (v : Host) (r : GateRequest) (id gate : String)
    → earlier_gate_passes v r id gate ≡ ok true
    → IsFollowed v r id gate
unfolding earlier_gate_passes has_passed_gate
earlier_gate_passes-IsFollowed v r id gate h = elim (Option-cases (r.entries)) [
  | inl n ↦ prior_gate_passes-IsFollowed v r id gate (rw (n, earlier_gate_passes) at h)
  | inr e ↦ record {
    entries = e.0;
    source = inl e.1;
    recorded = same _ _ (rw (e.1, earlier_gate_passes) at h);
  }
]
  where
    same : (a b : Bool) → ◌≡◌ {A = Result LedgerError Bool} (ok a) (ok b) → a ≡ b
    same a b z = cc

same_pair :
    (x y : Option String × List String)
    → ◌≡◌ {A = Result LedgerError (Option String × List String)} (ok x) (ok y)
    → x.1 ≡ y.1
same_pair x y z = cc

-- The report by its document.
report-IsAudited :
    (w : GateWorld) (pkg gate reviewer id name : String) (d : Fields) (rest : List String)
    → names_of w pkg (text_append "audit_report." gate) ≡ name ∷ []
    → load w.host (w.host.within pkg name) ≡ ok (object d)
    → check_audit_evidence w pkg gate d ≡ ok rest
    → check_report gate reviewer id d ++ rest ≡ []
    → IsAudited w pkg gate reviewer id
unfolding check_report
report-IsAudited w pkg gate reviewer id name d rest n l e h =
    let p = append-eq-nil _ _ h in
    let p1 = append-eq-nil _ _ p.0 in
    let p2 = append-eq-nil _ _ p1.1 in
    let p3 = append-eq-nil _ _ p2.1 in
    let p4 = append-eq-nil _ _ p3.1 in
    record {
      name = name;
      report = d;
      only = n;
      loads = l;
      target = is_text-eq _ _ (report_if-not-eq-nil _ _ p1.0);
      reviewed = is_text-eq _ _ (report_if-not-eq-nil _ _ p2.0);
      exact = is_text-eq _ _ (report_if-not-eq-nil _ _ p3.0);
      passes = is_text-eq _ _ (report_if-not-eq-nil _ _ p4.0);
      resolved = report_if-eq-nil _ _ p4.1;
      fingerprinted = λ t f m k z.
          check_fingerprints-IsFingerprinted w pkg _ (required_evidence gate) t f m
            (check_audit_evidence-rows w pkg gate d (e ∙ ap ok p.1)) k z;
    }

map-eq-nil : (f : String → String) (ts : List String) → is_nil ts ≡ false → map f ts ≢ []
map-eq-nil f [] n h = cc
map-eq-nil f (t ∷ ts) n h = cc

gate_audit_artifact-IsAudited :
    (w : GateWorld) (pkg gate reviewer id : String) (audit : Option String)
    → gate_audit_artifact w pkg gate reviewer id ≡ ok (audit, [])
    → IsAudited w pkg gate reviewer id
unfolding gate_audit_artifact
gate_audit_artifact-IsAudited w pkg gate reviewer id audit h =
    go (names_of w pkg (text_append "audit_report." gate)) refl
  where
    read :
        (name : String) (v : Value)
        → names_of w pkg (text_append "audit_report." gate) ≡ name ∷ []
        → load w.host (w.host.within pkg name) ≡ ok v
        → ◌≡◌ {A = Result LedgerError (Option String × List String)}
            (elim (as_object v) [
              | none ↦ ok (some name, "independent audit report must be an object" ∷ [])
              | some d ↦ check_audit_evidence w pkg gate d >>= λ rest.
                  ok (some name, check_report gate reviewer id d ++ rest)
            ])
            (ok (audit, []))
        → IsAudited w pkg gate reviewer id
    read name (object d) n l k =
        let p = >>=-eq-ok (check_audit_evidence w pkg gate d) _ k in
        report-IsAudited w pkg gate reviewer id name d p.0 n l p.1 (same_pair _ _ p.2)
    read name _ n l k = let z = same_pair _ _ k in cc

    go :
        (names : List String)
        → names_of w pkg (text_append "audit_report." gate) ≡ names
        → IsAudited w pkg gate reviewer id
    go [] e = let z = same_pair _ _ (rw (e, gate_audit_artifact) at h) in cc
    go (name ∷ n ∷ more) e = let z = same_pair _ _ (rw (e, gate_audit_artifact) at h) in cc
    go (name ∷ []) e =
        elim (Bool-cases (is_nil (w.issues (w.host.within pkg name) "audit_report"))) [
          | inr b ↦
              let z = same_pair _ _ (rw (e, b, gate_audit_artifact) at h) in
              absurd (map-eq-nil _ (w.issues (w.host.within pkg name) "audit_report") b z)
          | inl b ↦
              let p =
                >>=-eq-ok (load w.host (w.host.within pkg name)) _
                  (rw (e, b, gate_audit_artifact) at h) in
              read name p.0 e p.1 p.2
        ]

-- The gate before the paper gate or the risk review.
abbrev pub gate_before : String → String
gate_before gate = if str_eq gate "paper_gate" then "research_gate" else "paper_gate"

-- The package that a decision names was audited, and follows the gate before.
pub record IsPromoted (w : GateWorld) (v : Host) (r : GateRequest) (e : GateEvaluation)
    : Type 0 where
  pub package_id : String
  pub decided : get "package_id" e.decision ≡ text package_id
  pub audited : IsAudited w r.package_dir r.gate r.reviewer package_id
  pub followed : IsFollowed v r package_id (gate_before r.gate)

-- If the paper gate or the risk review is evaluated with exit code 0, then there is one audit report
-- of the gate in the package. It names the gate, the reviewer of the request and the package of the
-- decision, its verdict is `pass`, and it has no open or confirmed finding that blocks promotion. The
-- first file of each artifact that the audit has to cover has the fingerprint that the report
-- records under its name. The gate before, `research_gate` or `paper_gate`, has a recorded pass of
-- the same package at its directory: in the entries of the request, or in a ledger without issues
-- where the request has none.
pub evaluate_gate-IsPromoted :
    (w : GateWorld) (verifier : Host) (r : GateRequest) (e : GateEvaluation)
    → evaluate_gate w verifier r ≡ ok e
    → (r.gate ≡ "paper_gate") ⊎ (r.gate ≡ "risk_review")
    → e.exit_code ≡ 0
    → IsPromoted w verifier r e
evaluate_gate-IsPromoted w v r e h (inl g) z =
    let p = evaluate_gate-PaperPass w v r e h g z in
    record {
      package_id = id_of p.run_entry;
      decided = p.package_id;
      audited = gate_audit_artifact-IsAudited w _ _ _ _ _ p.requirements.audits;
      followed =
          subst (λ x. IsFollowed v r (id_of p.run_entry) (gate_before x)) (sym g)
            (earlier_gate_passes-IsFollowed v r _ "research_gate" p.requirements.follows);
    }
evaluate_gate-IsPromoted w v r e h (inr g) z =
    let p = evaluate_gate-RiskPass w v r e h g z in
    record {
      package_id = id_of p.run_entry;
      decided = p.package_id;
      audited = gate_audit_artifact-IsAudited w _ _ _ _ _ p.requirements.audits;
      followed =
          subst (λ x. IsFollowed v r (id_of p.run_entry) (gate_before x)) (sym g)
            (earlier_gate_passes-IsFollowed v r _ "paper_gate" p.requirements.follows);
    }
