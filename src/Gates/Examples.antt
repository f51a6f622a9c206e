-- ===== src/Gates/Examples.antt =====
-- The theorems on gates.py and attestation.py at the sample package.
use the_pass.Prelude.{inr, String, true, some, List, [], ◌∷◌, ◌≡◌, refl}
use the_pass.Prelude.{is_empty, strip, is_blank}
use the_pass.Prelude.Result.{ok, ◌>>=◌}
use the_pass.Json.{is_text, object, object_at, text, Fields, get, value_eq, equals_int}
use the_pass.Ledger.Package.{
  find_artifact, package_relative_path, artifact_identity_sha256, artifact_summary, summarize,
  linked_source_notes,
}
use the_pass.Ledger.RunEntry.{
  run_lineage_issue, build_run_entry, collect_artifact_summaries, deterministic_package_id,
  failed_gates,
}
use the_pass.Ledger.Append.{is_passage, has_passed_gate}
use the_pass.Ledger.Semantics
use the_pass.Ledger.Semantics.{
  build_gate_ledger_entry, decision_artifact, compare_gate_entry, judge_decision, judge_gate,
  judge_run, verify_semantics_from, verify_ledger_semantics,
}
use the_pass.Gates.GateWorld.{names_from}
use the_pass.Gates.Attestation.{
  review_task_path, check_signature, check_revoked, check_validity, check_key, check_binding,
  check_registry, check_identity, check_signer, verify_reviewer_attestation,
}
use the_pass.Gates.Registry.{read_registries, authorize, verify_trusted_reviewer_registry}
use the_pass.Gates.Evidence.{
  workflow_artifact, owner_of, reviewer_identity_blockers, gate_attestation_artifact,
}
use the_pass.Gates.Audit.{check_report, gate_audit_artifact}
use the_pass.Gates.Judgement.{
  prior_gate_passes, earlier_gate_passes, weigh_research, judge_research,
}
use the_pass.Gates.PaperGate.{
  timestamp, is_short, check_window, check_signals, check_plan, check_divergence, check_sample,
  check_paper, judge_paper,
}
use the_pass.Gates.RiskGate.{check_risk, judge_risk}
use the_pass.Gates.Evaluate.{
  policy_document, required_verdict, review_gate, judge_outcome, decision_of, evaluate_gate,
}
use the_pass.Gates.Decisions.{IsDecided, evaluate_gate-IsDecided}
use the_pass.Gates.Safety.{IsReviewed, evaluate_gate-IsReviewed}
use the_pass.Gates.Audited.{IsPromoted, evaluate_gate-IsPromoted}
use the_pass.Gates.Observed.{IsObserved, evaluate_gate-IsObserved}
use the_pass.Ledger.Shown.{ShowsDecisions}
use the_pass.Gates.Composed.{host_of}
use the_pass.Gates.Sequence.{Follows, verify_ledger_semantics-Follows}
use the_pass.Gates.Sample.{
  package_world, request, run_entry, research_evaluation, research_entry, paper_evaluation, world,
  paper_entry, risk_evaluation,
}
use the_pass.Gates.Canonical.{mark, show, canonical, show-injective}
use the_pass.Gates.Documents.{package_id, plan, divergence}

abbrev run_only : List Fields
run_only = run_entry ∷ []

abbrev researched : List Fields
researched = run_entry ∷ research_entry ∷ []

abbrev papered : List Fields
papered = run_entry ∷ research_entry ∷ paper_entry ∷ []

-- The three gates are evaluated in order, each from the entries before it.
evaluations :
    (evaluate_gate package_world package_world.host (request "research_gate" run_only)
      ≡ ok research_evaluation)
    × (evaluate_gate package_world package_world.host (request "paper_gate" researched)
        ≡ ok paper_evaluation)
    × (evaluate_gate package_world package_world.host (request "risk_review" papered)
        ≡ ok risk_evaluation)
    × (research_evaluation.exit_code ≡ 0)
    × (paper_evaluation.exit_code ≡ 0)
    × (risk_evaluation.exit_code ≡ 0)
unfolding ◌>>=◌ value_eq equals_int is_empty find_artifact package_relative_path
    artifact_identity_sha256 artifact_summary summarize linked_source_notes
    collect_artifact_summaries deterministic_package_id failed_gates build_run_entry
    run_lineage_issue build_gate_ledger_entry decision_artifact compare_gate_entry judge_decision
    judge_gate judge_run Semantics.judge verify_semantics_from verify_ledger_semantics strip
    is_blank has_passed_gate names_from review_task_path check_signature check_revoked
    check_validity check_key check_binding check_registry check_identity check_signer
    verify_reviewer_attestation read_registries authorize verify_trusted_reviewer_registry
    workflow_artifact owner_of reviewer_identity_blockers gate_attestation_artifact check_report
    gate_audit_artifact prior_gate_passes earlier_gate_passes weigh_research judge_research
    timestamp is_short check_window check_signals check_plan check_divergence check_sample
    check_paper judge_paper check_risk judge_risk policy_document required_verdict review_gate
    judge_outcome decision_of evaluate_gate
evaluations = (refl, refl, refl, refl, refl, refl)

-- The ledger of the run and of the first two decisions.
replayed : verify_ledger_semantics (host_of world) "ledger" papered ≡ ok []
unfolding mark show ◌>>=◌ value_eq equals_int is_empty find_artifact package_relative_path
    artifact_identity_sha256 artifact_summary summarize linked_source_notes
    collect_artifact_summaries deterministic_package_id failed_gates build_run_entry
    run_lineage_issue build_gate_ledger_entry decision_artifact compare_gate_entry judge_decision
    judge_gate judge_run Semantics.judge verify_semantics_from verify_ledger_semantics strip
    is_blank has_passed_gate names_from review_task_path check_signature check_revoked
    check_validity check_key check_binding check_registry check_identity check_signer
    verify_reviewer_attestation read_registries authorize verify_trusted_reviewer_registry
    workflow_artifact owner_of reviewer_identity_blockers gate_attestation_artifact check_report
    gate_audit_artifact prior_gate_passes earlier_gate_passes weigh_research judge_research
    timestamp is_short check_window check_signals check_plan check_divergence check_sample
    check_paper judge_paper check_risk judge_risk policy_document required_verdict review_gate
    judge_outcome decision_of evaluate_gate
replayed = refl

recorded_passage :
    is_passage (host_of world) "ledger" package_id "paper_gate" "p" paper_entry ≡ true
unfolding ◌>>=◌ value_eq equals_int is_empty find_artifact package_relative_path
    artifact_identity_sha256 artifact_summary summarize linked_source_notes
    collect_artifact_summaries deterministic_package_id failed_gates build_run_entry
    run_lineage_issue build_gate_ledger_entry decision_artifact compare_gate_entry judge_decision
    judge_gate judge_run Semantics.judge verify_semantics_from verify_ledger_semantics strip
    is_blank has_passed_gate names_from review_task_path check_signature check_revoked
    check_validity check_key check_binding check_registry check_identity check_signer
    verify_reviewer_attestation read_registries authorize verify_trusted_reviewer_registry
    workflow_artifact owner_of reviewer_identity_blockers gate_attestation_artifact check_report
    gate_audit_artifact prior_gate_passes earlier_gate_passes weigh_research judge_research
    timestamp is_short check_window check_signals check_plan check_divergence check_sample
    check_paper judge_paper check_risk judge_risk policy_document required_verdict review_gate
    judge_outcome decision_of evaluate_gate
recorded_passage = refl

artifacts :
    (workflow_artifact package_world "p" "paper_plan"
      ≡ ok (record { name = some "paper_plan.json"; document = some plan; issues = [] }))
    × (workflow_artifact package_world "p" "divergence_report"
        ≡ ok (record {
          name = some "divergence_report.json";
          document = some divergence;
          issues = [];
        }))
unfolding ◌>>=◌ names_from workflow_artifact
artifacts = (refl, refl)

evaluate_gate-IsDecided_example : IsDecided (request "research_gate" run_only) research_evaluation
evaluate_gate-IsDecided_example =
    evaluate_gate-IsDecided package_world package_world.host (request "research_gate" run_only)
      research_evaluation evaluations.0

evaluate_gate-IsReviewed_example :
    (id : String) × (get "package_id" research_evaluation.decision ≡ text id)
    × IsReviewed package_world "p" "research_gate" id "rita"
evaluate_gate-IsReviewed_example =
    evaluate_gate-IsReviewed package_world package_world.host (request "research_gate" run_only)
      research_evaluation evaluations.0 evaluations.3

evaluate_gate-IsPromoted_example :
    IsPromoted package_world package_world.host (request "risk_review" papered) risk_evaluation
evaluate_gate-IsPromoted_example =
    evaluate_gate-IsPromoted package_world package_world.host (request "risk_review" papered)
      risk_evaluation evaluations.2 (inr refl) evaluations.5

evaluate_gate-IsObserved_example : IsObserved package_world (object_at "sample" divergence) 2 5
evaluate_gate-IsObserved_example =
    evaluate_gate-IsObserved package_world package_world.host (request "paper_gate" researched)
      paper_evaluation (record { name = some "paper_plan.json"; document = some plan; issues = [] })
      (record { name = some "divergence_report.json"; document = some divergence; issues = [] })
      plan divergence 2 5 evaluations.1 refl evaluations.4 artifacts.0 artifacts.1 refl refl refl
      refl

-- The rest of the canonical text, key by key.
abbrev after_result : Fields → String
after_result f = show (get "package_id" f) ""

abbrev after_gate_id : Fields → String
after_gate_id f = show (get "gate_result" f) (after_result f)

abbrev after_gate : Fields → String
after_gate f = show (get "gate_id" f) (after_gate_id f)

world-ShowsDecisions : ShowsDecisions (host_of world)
world-ShowsDecisions = record {
  gate = λ s a b e. (at_gate a b e).0 s;
  gate_id = λ s a b e. (at_gate_id a b e).0 s;
  gate_result = λ s a b e. (at_result a b e).0 s;
  package_id = λ s a b e. (show-injective _ _ _ _ (at_result a b e).1).0 s;
}
  where
    at_gate :
        (a b : Fields)
        → canonical (object a) ≡ canonical (object b)
        → ((s : String) → is_text s (get "gate" a) ≡ is_text s (get "gate" b))
          × (after_gate a ≡ after_gate b)
    at_gate a b e = show-injective (get "gate" a) (get "gate" b) _ _ e

    at_gate_id :
        (a b : Fields)
        → canonical (object a) ≡ canonical (object b)
        → ((s : String) → is_text s (get "gate_id" a) ≡ is_text s (get "gate_id" b))
          × (after_gate_id a ≡ after_gate_id b)
    at_gate_id a b e = show-injective _ _ _ _ (at_gate a b e).1

    at_result :
        (a b : Fields)
        → canonical (object a) ≡ canonical (object b)
        → ((s : String) → is_text s (get "gate_result" a) ≡ is_text s (get "gate_result" b))
          × (after_result a ≡ after_result b)
    at_result a b e = show-injective _ _ _ _ (at_gate_id a b e).1

verify_ledger_semantics-Follows_example :
    Follows (host_of world) "ledger" package_id "paper_gate" "p" researched
verify_ledger_semantics-Follows_example =
    verify_ledger_semantics-Follows world "ledger" package_id "paper_gate" "p" researched
      paper_entry [] world-ShowsDecisions replayed recorded_passage
