-- ===== src/Gates/Evaluate.antt =====
-- gates.py: `evaluate_gate`.
use Prim.Native.String.{◌++◌ as text_append, slice, count}
use the_pass.Prelude.{
  ℕ, String, false, not, none, some, List, [], ◌∷◌, ◌++◌, map, select, mem_text, is_blank, strip,
  str_eq, if◌then◌else◌,
}
use the_pass.Prelude.Result.{Result, ok, raise, ◌>>=◌, ◌>>◌, raise_if}
use the_pass.Json.{
  Value, null, boolean, integer, pos, text, array, object, Fields, get, remove, dict, items, is_str,
  has_key, text_or_empty, as_object, object_at,
}
use the_pass.Ledger.Host.{Host, GateRequest}
use the_pass.Ledger.Issues.{LedgerError}
use the_pass.Ledger.RunEntry.{build_run_entry, collect_artifact_summaries}
use the_pass.Ledger.Append.{core_gates}
use the_pass.Gates.GateWorld.{GateWorld, GateError, refused, of_ledger, joined}
use the_pass.Gates.Registry.{untrusted}
use the_pass.Gates.Evidence.{
  workflow_artifact, Review, reviewer_identity_blockers, gate_attestation_artifact,
}
use the_pass.Gates.Judgement.{Outcome, join, judge_research, judge_live}
use the_pass.Gates.PaperGate.{judge_paper}
use the_pass.Gates.RiskGate.{judge_risk}

pub record GateEvaluation : Type 0 where
  pub decision : Fields
  pub exit_code : ℕ

-- The dictionary of the policy, which has to name its version.
unfoldable pub policy_document : GateWorld → Result GateError Fields
policy_document w = elim (w.policy) [
  | none ↦ raise (refused "cannot load gate policy")
  | some v ↦ elim (as_object v) [
    | none ↦ raise (refused "gate policy must contain policy_version")
    | some m ↦
        if is_str (get "policy_version" m)
        then ok m
        else raise (refused "gate policy must contain policy_version")
  ]
]

-- The verdict report, without which no gate is evaluated.
unfoldable pub required_verdict : GateWorld → String → Result GateError Fields
required_verdict w pkg = of_ledger (workflow_artifact w pkg "verdict_report") >>= λ found.
    elim (found.document) [
      | some d ↦ ok d
      | none ↦
          raise (
            refused
              (elim (found.issues) [ [] ↦ "missing verdict report" | t ∷ ts ↦ join (t ∷ ts) ]))
    ]

-- The review of the gate; the live gate has none.
unfoldable pub review_gate : GateWorld → GateRequest → String → Result LedgerError Review
review_gate w r package_id =
    if str_eq r.gate "live_gate"
    then ok (record { rows = []; trust = untrusted; blockers = [] })
    else (reviewer_identity_blockers w r.package_dir r.reviewer >>= λ identity.
        gate_attestation_artifact w r.package_dir r.gate r.reviewer package_id >>= λ review.
        ok (record {
          rows = review.rows;
          trust = review.trust;
          blockers = identity ++ review.blockers;
        }))

-- `v` is the host that verifies the ledger of earlier decisions.
unfoldable pub judge_outcome :
    GateWorld
    → Host
    → GateRequest
    → Fields
    → Fields
    → Fields
    → String
    → List String
    → Result GateError Outcome
judge_outcome w v r policy run_entry verdict package_id review =
    if str_eq r.gate "research_gate"
    then judge_research w r run_entry verdict review
    else if str_eq r.gate "paper_gate"
    then of_ledger (judge_paper w v r package_id verdict review)
    else if str_eq r.gate "risk_review"
    then of_ledger (judge_risk w v r package_id run_entry review)
    else ok (judge_live policy)

-- The summaries without `identity_sha256`, and the rows at other paths.
evidence_of : List Fields → List Fields → List Value
evidence_of summaries rows =
    let paths = map (λ s. text_or_empty (get "path" s)) summaries in
    map (λ s. object (remove "identity_sha256" s)) summaries
    ++ map object (select (λ s. not (mem_text (text_or_empty (get "path" s)) paths)) rows)

abbrev pub safety : Fields
safety = dict (
    ("grants_live_approval", boolean false)
    ∷ ("live_trading_enabled", boolean false)
    ∷ ("real_order_path_available", boolean false)
    ∷ [])

abbrev pub decision_id : GateWorld → String → String → String
decision_id w gate package_id =
    text_append (joined "gate_" gate "_")
      (joined (slice package_id 4 (count package_id)) "_" (slice w.policy_hash 0 8))

unfoldable pub decision_of :
    GateWorld → GateRequest → Fields → String → Review → Outcome → List Fields → Fields
unfolding evidence_of
decision_of w r policy package_id review outcome summaries = dict (
    ("schema_version", integer (pos 2))
    ∷ ("id", text (decision_id w r.gate package_id))
    ∷ ("created_at", text w.host.now)
    ∷ ("gate_id", text r.gate)
    ∷ ("gate_result", text outcome.result)
    ∷ ("policy_version", get "policy_version" policy)
    ∷ ("policy_hash", text w.policy_hash)
    ∷ ("package_id", text package_id)
    ∷ ("package_path", text ".")
    ∷ ("reviewer", text r.reviewer)
    ∷ ("reviewer_trust", object review.trust)
    ∷ ("evidence", array (items (evidence_of summaries (review.rows ++ outcome.rows))))
    ∷ ("blockers", array (items (map text outcome.blockers)))
    ∷ (
      "summary",
      text (if str_eq outcome.result "pass" then "gate passed" else join outcome.blockers),
    )
    ∷ ("safety", object safety)
    ∷ [])

abbrev pub exit_code_of : String → String → ℕ
exit_code_of gate result =
    if str_eq result "pass" then 0 else if str_eq gate "live_gate" then 3 else 2

-- The tests of the arguments and of the package, up to the policy.
check_request : GateWorld → GateRequest → Result GateError Fields
unfolding policy_document
check_request w r = do
  raise_if (not (mem_text r.gate core_gates)) (refused "gate must be one of the core gates")
  raise_if (is_blank r.reviewer) (refused "reviewer must be non-empty")
  raise_if (not (str_eq r.reviewer (strip r.reviewer)))
      (refused "reviewer must not contain leading or trailing whitespace")
  raise_if (not (w.host.validate_package r.package_dir (some r.ledger_path)))
      (refused "package is invalid")
  policy ← policy_document w
  raise_if (not (has_key r.gate (object_at "gates" policy)))
      (refused "gate policy does not define the gate")
  ok policy

unfoldable pub evaluate_gate : GateWorld → Host → GateRequest → Result GateError GateEvaluation
unfolding check_request
evaluate_gate w v r = do
  policy ← check_request w r
  run_entry ← of_ledger (build_run_entry w.host r.package_dir null r.ledger_path)
  let package_id = text_or_empty (get "package_id" run_entry)
  verdict ← required_verdict w r.package_dir
  review ← of_ledger (review_gate w r package_id)
  outcome ← judge_outcome w v r policy run_entry verdict package_id review.blockers
  summaries ← of_ledger (collect_artifact_summaries w.host r.package_dir)
  ok (record {
    decision = decision_of w r policy package_id review outcome summaries;
    exit_code = exit_code_of r.gate outcome.result;
  })
