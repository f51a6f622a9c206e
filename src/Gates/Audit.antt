-- ===== src/Gates/Audit.antt =====
-- gates.py: the independent audit report of the paper and risk gates.
use Prim.Native.String.{◌++◌ as text_append}
use the_pass.Prelude.{
  String, Bool, false, not, ◌&&◌, ◌||◌, ◌==◌, Option, none, some, List, [], ◌∷◌, ◌++◌, str_eq,
  any_of, length, is_nil, if◌then◌else◌,
}
use the_pass.Prelude.Result.{Result, ok, ◌>>=◌}
use the_pass.Json.{
  Value, null, text, object, Fields, nil, get, insert, is_list, is_str, is_falsy, is_text,
  text_or_empty, list_of, keys_of, as_object, value_eq,
}
use the_pass.Ledger.Issues.{LedgerError}
use the_pass.Ledger.Package.{load, artifact_identity_sha256}
use the_pass.Gates.GateWorld.{GateWorld, report_if, joined, names_of, typed_issues}

-- An open finding that blocks the promotion.
abbrev pub is_blocking : Value → Bool
is_blocking (object f) =
    not (is_falsy (get "blocks_promotion" f))
    && (is_text "open" (get "status" f) || is_text "confirmed" (get "status" f))
is_blocking _ = false

-- `required_evidence`, at the two gates that ask for an audit.
abbrev pub required_evidence : String → List String
required_evidence gate =
    if str_eq gate "paper_gate"
    then "paper_plan" ∷ "observation_manifest" ∷ "divergence_report" ∷ []
    else "risk_report" ∷ "approval_pack" ∷ "config_diff" ∷ []

-- The dictionary of the fingerprints by path, after the rows before.
unfoldable pub fingerprint_rows : Fields → List Value → Fields
fingerprint_rows m [] = m
fingerprint_rows m (v ∷ r) = elim (as_object v) [
  | none ↦ fingerprint_rows m r
  | some item ↦
      if is_str (get "path" item)
      then fingerprint_rows (insert (text_or_empty (get "path" item)) (get "sha256" item) m) r
      else fingerprint_rows m r
]

-- Each artifact has the fingerprint that the audit recorded under its name; where it is missing,
-- the audit has to have none.
unfoldable pub check_fingerprints :
    GateWorld → String → Fields → List String → Result LedgerError (List String)
check_fingerprints w pkg rows [] = ok []
check_fingerprints w pkg rows (t ∷ ts) = elim (names_of w pkg t) [
  | [] ↦ check_fingerprints w pkg rows ts >>= λ rest. ok (
      report_if (not (value_eq (get t rows) null))
        (text_append "independent audit fingerprint does not match " t)
      ++ rest)
  | name ∷ more ↦
      let path = w.host.within pkg name in
      load w.host path >>= λ v. check_fingerprints w pkg rows ts >>= λ rest. ok (
        report_if (not (value_eq (get name rows) (text (artifact_identity_sha256 w.host t path v))))
          (text_append "independent audit fingerprint does not match " name)
        ++ rest)
]

-- What the report itself has to say.
unfoldable pub check_report : String → String → String → Fields → List String
check_report gate reviewer package_id d =
    report_if (not (is_text gate (get "target" d)))
      (text_append "independent audit report target must be " gate)
    ++ (report_if (not (is_text reviewer (get "reviewer" d)))
          "gate reviewer must match the independent audit report reviewer"
        ++ (report_if (not (is_text package_id (get "package_id" d)))
              "independent audit report package_id must match the exact package"
            ++ (report_if (not (is_text "pass" (get "verdict" d)))
                  "independent audit report is not a pass"
                ++ report_if (any_of is_blocking (list_of (get "findings" d)))
                    "independent audit report contains an unresolved blocking finding")))

unfoldable pub check_audit_evidence :
    GateWorld → String → String → Fields → Result LedgerError (List String)
unfolding fingerprint_rows check_fingerprints
check_audit_evidence w pkg gate d =
    if not (is_list (get "evidence_fingerprints" d))
    then ok ("independent audit report requires evidence fingerprints" ∷ [])
    else let fingerprints = list_of (get "evidence_fingerprints" d) in
      let rows = fingerprint_rows nil fingerprints in
      (check_fingerprints w pkg rows (required_evidence gate) >>= λ rest. ok (
        report_if (not (length (keys_of rows) == length fingerprints))
          "independent audit report has duplicate or invalid evidence fingerprints"
        ++ rest))

-- The name of the report where there is one, and the blockers.
unfoldable pub gate_audit_artifact :
    GateWorld → String → String → String → String → Result LedgerError (Option String × List String)
unfolding check_audit_evidence
gate_audit_artifact w pkg gate reviewer package_id =
    elim (names_of w pkg (text_append "audit_report." gate)) [
      | [] ↦ ok (none, joined "missing independent audit_report." gate " artifact" ∷ [])
      | name ∷ more ↦
          let path = w.host.within pkg name in
          if not (is_nil more)
          then ok (none, text_append "ambiguous independent audit report for " gate ∷ [])
          else if not (is_nil (w.issues path "audit_report"))
          then ok (some name, typed_issues w path "audit_report")
          else (load w.host path >>= λ v. elim (as_object v) [
            | none ↦ ok (some name, "independent audit report must be an object" ∷ [])
            | some d ↦ check_audit_evidence w pkg gate d >>= λ rest.
                ok (some name, check_report gate reviewer package_id d ++ rest)
          ])
    ]
