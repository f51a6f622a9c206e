-- ===== src/Gates/RiskGate.antt =====
-- gates.py: the `risk_review` branch of `evaluate_gate`.
use the_pass.Prelude.{String, not, ◌||◌, Option, none, some, List, [], ◌++◌}
use the_pass.Prelude.Result.{Result, ok, ◌>>=◌}
use the_pass.Json.{Fields, get, is_falsy, is_text, list_of, texts, object_at, value_eq}
use the_pass.Ledger.Host.{Host, GateRequest}
use the_pass.Ledger.Issues.{LedgerError}
use the_pass.Gates.GateWorld.{GateWorld, report_if}
use the_pass.Gates.Evidence.{workflow_artifact, row_of}
use the_pass.Gates.Audit.{gate_audit_artifact}
use the_pass.Gates.Judgement.{Outcome, pass_unless, earlier_gate_passes}

check_risk_report : String → Option Fields → List String
check_risk_report package_id none = []
check_risk_report package_id (some d) =
    report_if (not (is_text package_id (get "package_id" d)))
      "risk report package_id does not match the exact package"
    ++ report_if (not (is_text "pass" (get "verdict" d)) || not (is_falsy (get "blockers" d)))
        "risk report is not an unblocked pass"

check_approval : Option Fields → List String
check_approval none = []
check_approval (some d) =
    report_if (not (is_text "risk_review" (get "requested_gate" d)))
      "approval pack does not request risk_review"
    ++ (report_if (not (is_text "packaged" (get "status" d))) "approval pack is not packaged"
        ++ report_if (is_falsy (get "risk_reports" (object_at "evidence" d)))
            "approval pack does not reference a risk report")

check_config : Option Fields → Option Fields → List String
check_config (some approval) (some diff) =
    report_if (not (value_eq (get "config_hash" approval) (get "after_hash" diff)))
      "approval config_hash does not match config diff after_hash"
check_config none diff = []
check_config (some approval) none = []

-- The tests of the risk review on its artifacts.
unfoldable pub check_risk : String → Option Fields → Option Fields → Option Fields → List String
unfolding check_risk_report check_approval check_config
check_risk package_id report approval diff =
    check_risk_report package_id report ++ (check_approval approval ++ check_config approval diff)

unfoldable pub judge_risk :
    GateWorld → Host → GateRequest → String → Fields → List String → Result LedgerError Outcome
judge_risk w v r package_id run_entry review = do
  audit ← gate_audit_artifact w r.package_dir r.gate r.reviewer package_id
  passed ← earlier_gate_passes v r package_id "paper_gate"
  risk ← workflow_artifact w r.package_dir "risk_report"
  approval ← workflow_artifact w r.package_dir "approval_pack"
  config ← workflow_artifact w r.package_dir "config_diff"
  let blockers =
      review
      ++ (audit.1
          ++ (report_if (not passed) "exact package has no passed paper_gate decision"
              ++ (risk.issues
                  ++ (approval.issues
                      ++ (config.issues
                          ++ (check_risk package_id risk.document approval.document config.document
                              ++ texts (list_of (get "open_blockers" run_entry))))))))
  ok (record {
    result = pass_unless blockers;
    blockers = blockers;
    rows =
        row_of w r.package_dir "audit_report" audit.0
        ++ (row_of w r.package_dir "risk_report" risk.name
            ++ (row_of w r.package_dir "approval_pack" approval.name
                ++ row_of w r.package_dir "config_diff" config.name));
  })
