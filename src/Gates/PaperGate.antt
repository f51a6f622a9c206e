-- ===== src/Gates/PaperGate.antt =====
-- gates.py: the `paper_gate` branch of `evaluate_gate`.
use the_pass.Prelude.{
  ℕ, ◌*◌, ◌-◌, String, Bool, true, false, not, ◌||◌, Option, none, some, List, [], ◌++◌, ltb, leb,
  any_of, if◌then◌else◌,
}
use the_pass.Prelude.Result.{Result, ok, ◌>>=◌}
use the_pass.Json.{
  ℤ, pos, negsuc, Value, boolean, integer, decimal, text, object, Fields, get, is_falsy, is_text,
  list_of, object_at,
}
use the_pass.Ledger.Host.{Host, GateRequest}
use the_pass.Ledger.Issues.{LedgerError}
use the_pass.Gates.GateWorld.{GateWorld, report_if}
use the_pass.Gates.Evidence.{workflow_artifact, row_of}
use the_pass.Gates.Audit.{gate_audit_artifact}
use the_pass.Gates.Judgement.{Outcome, pass_unless, earlier_gate_passes}

-- `blocks_promotion` of a breach.
abbrev is_blocking_breach : Value → Bool
is_blocking_breach (object b) = not (is_falsy (get "blocks_promotion" b))
is_blocking_breach _ = false

-- `isinstance(value, int)`, which Python's `True` and `False` are too.
abbrev pub int_of : Value → Option ℤ
int_of (integer z) = some z
int_of (boolean b) = some (pos (if b then 1 else 0))
int_of _ = none

-- `seconds < days * 86_400` at a number of microseconds.
abbrev pub shorter_than_days : ℕ → ℤ → Bool
shorter_than_days micros (pos days) = ltb micros (days * 86400000000)
shorter_than_days micros (negsuc n) = false

-- `signals < minimum`
abbrev pub fewer_than : ℤ → ℤ → Bool
fewer_than (pos a) (pos b) = ltb a b
fewer_than (pos a) (negsuc b) = false
fewer_than (negsuc a) (pos b) = true
fewer_than (negsuc a) (negsuc b) = ltb b a

unfoldable pub timestamp : GateWorld → Value → Option ℕ
timestamp w (text t) = w.parse_timestamp t
timestamp w _ = none

-- The observed window against the planned days.
unfoldable pub is_short : GateWorld → Fields → ℤ → Bool
unfolding timestamp
is_short w sample days = elim (timestamp w (get "start_time" sample)) [
  | none ↦ true
  | some start ↦ elim (timestamp w (get "end_time" sample)) [
    | none ↦ true
    | some end ↦ leb end start || shorter_than_days (end - start) days
  ]
]

unfoldable pub check_window : GateWorld → Fields → Fields → List String
unfolding is_short
check_window w plan sample = elim (int_of (get "minimum_days" (object_at "observation" plan))) [
  | none ↦ []
  | some days ↦
      report_if (is_short w sample days) "paper observation window is shorter than planned"
]

-- `sample.get("signals") or 0`. A float is below a whole number just when its floor is.
abbrev pub signals_of : GateWorld → Fields → ℤ
signals_of w sample = elim (get "signals" sample) [
  | decimal s ↦ w.floor s
  | v ↦ elim (int_of v) [ none ↦ pos 0 | some z ↦ z ]
]

unfoldable pub check_signals : GateWorld → Fields → Fields → List String
check_signals w plan sample = elim (int_of (get "minimum_signals" (object_at "observation" plan))) [
  | none ↦ []
  | some minimum ↦
      report_if (fewer_than (signals_of w sample) minimum)
        "paper observation has fewer signals than planned"
]

unfoldable pub check_plan : Option Fields → List String
check_plan none = []
check_plan (some plan) =
    report_if (not (is_text "paper_ready" (get "status" plan))) "paper plan is not paper_ready"

unfoldable pub check_divergence : Option Fields → List String
check_divergence none = []
check_divergence (some d) =
    report_if (not (is_text "risk_review_candidate" (get "status" (object_at "decision" d))))
      "divergence report is not risk_review_candidate"
    ++ report_if (any_of is_blocking_breach (list_of (get "breaches" d)))
        "divergence report contains a blocking breach"

unfoldable pub check_sample : GateWorld → Option Fields → Option Fields → List String
unfolding check_window check_signals
check_sample w (some plan) (some d) =
    let sample = object_at "sample" d in check_window w plan sample ++ check_signals w plan sample
check_sample w none d = []
check_sample w (some plan) none = []

-- The tests of the paper gate on its artifacts.
unfoldable pub check_paper : GateWorld → Option Fields → Option Fields → List String
unfolding check_plan check_divergence check_sample
check_paper w plan d = check_plan plan ++ (check_divergence d ++ check_sample w plan d)

unfoldable pub judge_paper :
    GateWorld → Host → GateRequest → String → Fields → List String → Result LedgerError Outcome
judge_paper w v r package_id verdict review = do
  audit ← gate_audit_artifact w r.package_dir r.gate r.reviewer package_id
  passed ← earlier_gate_passes v r package_id "research_gate"
  plan ← workflow_artifact w r.package_dir "paper_plan"
  observation ← workflow_artifact w r.package_dir "observation_manifest"
  divergence ← workflow_artifact w r.package_dir "divergence_report"
  let blockers =
      review
      ++ (audit.1
          ++ (report_if (not (is_text "paper_candidate" (get "verdict" verdict)))
                "paper_gate requires paper_candidate verdict"
              ++ (report_if (not passed) "exact package has no passed research_gate decision"
                  ++ (plan.issues
                      ++ (observation.issues
                          ++ (divergence.issues
                              ++ check_paper w plan.document divergence.document))))))
  ok (record {
    result = pass_unless blockers;
    blockers = blockers;
    rows =
        row_of w r.package_dir "audit_report" audit.0
        ++ (row_of w r.package_dir "paper_plan" plan.name
            ++ (row_of w r.package_dir "observation_manifest" observation.name
                ++ row_of w r.package_dir "divergence_report" divergence.name));
  })
