-- ===== src/Workflow/Examples.antt =====
-- Tests and instances for orchestration.py.
use the_pass.Prelude.{◌+◌, ◌≤◌, true, ◌≡◌, ◌≢◌, ◌↔◌, ◌⊎◌, refl, mem_text, is_blank, is_empty, arith}
use the_pass.Prelude.Result.{ok, raise, ◌>>=◌}
use the_pass.Json.{value_eq, equals_int}
use the_pass.Ledger.Entries.{
  hash_entry, read_lines, read_ledger_entries, shape_issues, entry_issues, verify_entries_from,
  verify_ledger_entries,
}
use the_pass.Ledger.Artifacts.{
  candidate_fault, artifact_fault, artifacts_issues, artifact_list_issues, entry_artifact_issues,
  verify_artifacts_from, verify_ledger_artifacts,
}
use the_pass.Ledger.Package.{
  find_artifact, package_relative_path, artifact_identity_sha256, artifact_summary, summarize,
  linked_source_notes,
}
use the_pass.Ledger.RunEntry.{
  collect_artifact_summaries, deterministic_package_id, artifacts_hash, failed_gates,
  build_run_entry, run_lineage_issue,
}
use the_pass.Ledger.Semantics.{
  judge_registration, judge_run, build_gate_ledger_entry, judge_gate, judge, verify_semantics_from,
  verify_ledger_semantics, verify_ledger_file,
}
use the_pass.Ledger.Append.{has_passed_gate}
use the_pass.Workflow.Errors.{terminal, blocked_needs_resume, budgets_exhausted}
use the_pass.Workflow.Reach.{reachable_stages, explore, expand}
use the_pass.Workflow.Reached.{IsReached}
use the_pass.Workflow.Fuel.{IsClosed, reachable_stages-exact}
use the_pass.Workflow.Policy.{
  check_runtime, check_stage, check_stages, check_graph, check_safety, validate_pipeline_policy,
}
use the_pass.Workflow.PolicyLaws.{IsSafePolicy, validate_pipeline_policy-safe}
use the_pass.Workflow.State.{validate_workflow_state}
use the_pass.Workflow.Evidence.{
  verify_package, verify_workflow_evidence, workflow_target_passes, passes_in,
}
use the_pass.Workflow.Remediation.{
  confirmed_finding_artifact, verify_target_remediation_entry, verify_remediation_progress,
}
use the_pass.Workflow.Start.{new_workflow_state}
use the_pass.Workflow.Checks.{
  check_resumable, check_remediation, check_completion, check_transition,
}
use the_pass.Workflow.Advance.{
  finish_move, review_move, remediate_move, spend_transition, advance_workflow_state,
}
use the_pass.Workflow.Bounded.{
  IsLegalStep, advance_workflow_state-IsLegalStep, Advances, once, then_on, Advances-bounded,
}
use the_pass.Workflow.Legal.{complete, advance_workflow_state-closed}
use the_pass.Workflow.Gated.{IsEvidenced, advance_workflow_state-IsEvidenced}
use the_pass.Workflow.Started.{IsCompleted, new_workflow_state_complete}
use the_pass.Workflow.Sample.{
  document, policy, world, start, started, to_gate, at_gate, to_complete, completed, graph,
}

document_passes : validate_pipeline_policy document ≡ ok tt
unfolding ◌>>=◌ validate_pipeline_policy check_runtime check_stage check_stages check_graph
    check_safety value_eq equals_int is_empty reachable_stages explore expand
document_passes = refl

starts : new_workflow_state world policy start ≡ ok started
unfolding ◌>>=◌ hash_entry read_lines read_ledger_entries shape_issues entry_issues
    verify_entries_from verify_ledger_entries candidate_fault artifact_fault artifacts_issues
    artifact_list_issues entry_artifact_issues verify_artifacts_from verify_ledger_artifacts
    find_artifact package_relative_path artifact_identity_sha256 artifact_summary summarize
    linked_source_notes collect_artifact_summaries deterministic_package_id artifacts_hash
    failed_gates build_run_entry run_lineage_issue judge_registration judge_run
    build_gate_ledger_entry judge_gate judge verify_semantics_from verify_ledger_semantics
    verify_ledger_file has_passed_gate value_eq equals_int is_empty is_blank validate_workflow_state
    verify_package verify_workflow_evidence workflow_target_passes passes_in check_resumable
    check_remediation check_completion check_transition finish_move review_move remediate_move
    spend_transition advance_workflow_state new_workflow_state confirmed_finding_artifact
    verify_target_remediation_entry verify_remediation_progress
starts = refl

reaches_gate : advance_workflow_state world policy started to_gate ≡ ok at_gate
unfolding ◌>>=◌ hash_entry read_lines read_ledger_entries shape_issues entry_issues
    verify_entries_from verify_ledger_entries candidate_fault artifact_fault artifacts_issues
    artifact_list_issues entry_artifact_issues verify_artifacts_from verify_ledger_artifacts
    find_artifact package_relative_path artifact_identity_sha256 artifact_summary summarize
    linked_source_notes collect_artifact_summaries deterministic_package_id artifacts_hash
    failed_gates build_run_entry run_lineage_issue judge_registration judge_run
    build_gate_ledger_entry judge_gate judge verify_semantics_from verify_ledger_semantics
    verify_ledger_file has_passed_gate value_eq equals_int is_empty is_blank validate_workflow_state
    verify_package verify_workflow_evidence workflow_target_passes passes_in check_resumable
    check_remediation check_completion check_transition finish_move review_move remediate_move
    spend_transition advance_workflow_state new_workflow_state confirmed_finding_artifact
    verify_target_remediation_entry verify_remediation_progress
reaches_gate = refl

completes : advance_workflow_state world policy at_gate to_complete ≡ ok completed
unfolding ◌>>=◌ hash_entry read_lines read_ledger_entries shape_issues entry_issues
    verify_entries_from verify_ledger_entries candidate_fault artifact_fault artifacts_issues
    artifact_list_issues entry_artifact_issues verify_artifacts_from verify_ledger_artifacts
    find_artifact package_relative_path artifact_identity_sha256 artifact_summary summarize
    linked_source_notes collect_artifact_summaries deterministic_package_id artifacts_hash
    failed_gates build_run_entry run_lineage_issue judge_registration judge_run
    build_gate_ledger_entry judge_gate judge verify_semantics_from verify_ledger_semantics
    verify_ledger_file has_passed_gate value_eq equals_int is_empty is_blank validate_workflow_state
    verify_package verify_workflow_evidence workflow_target_passes passes_in check_resumable
    check_remediation check_completion check_transition finish_move review_move remediate_move
    spend_transition advance_workflow_state new_workflow_state confirmed_finding_artifact
    verify_target_remediation_entry verify_remediation_progress
completes = refl

completed_validates : validate_workflow_state world policy completed ≡ ok tt
unfolding ◌>>=◌ hash_entry read_lines read_ledger_entries shape_issues entry_issues
    verify_entries_from verify_ledger_entries candidate_fault artifact_fault artifacts_issues
    artifact_list_issues entry_artifact_issues verify_artifacts_from verify_ledger_artifacts
    find_artifact package_relative_path artifact_identity_sha256 artifact_summary summarize
    linked_source_notes collect_artifact_summaries deterministic_package_id artifacts_hash
    failed_gates build_run_entry run_lineage_issue judge_registration judge_run
    build_gate_ledger_entry judge_gate judge verify_semantics_from verify_ledger_semantics
    verify_ledger_file has_passed_gate value_eq equals_int is_empty is_blank validate_workflow_state
    verify_package verify_workflow_evidence workflow_target_passes passes_in check_resumable
    check_remediation check_completion check_transition finish_move review_move remediate_move
    spend_transition advance_workflow_state new_workflow_state confirmed_finding_artifact
    verify_target_remediation_entry verify_remediation_progress
completed_validates = refl

run_of_two : Advances world policy 2 started completed
run_of_two = then_on to_gate reaches_gate (once to_complete completes)

graph-IsClosed : IsClosed graph
graph-IsClosed s d h = ground arith

validate_pipeline_policy-safe_example : IsSafePolicy document
validate_pipeline_policy-safe_example = validate_pipeline_policy-safe document document_passes

reachable_stages-exact_example :
    (mem_text "complete" (reachable_stages graph) ≡ true) ↔ IsReached graph "complete"
reachable_stages-exact_example = reachable_stages-exact graph "complete" graph-IsClosed

advance_workflow_state-IsLegalStep_example : IsLegalStep world policy started at_gate
advance_workflow_state-IsLegalStep_example =
    advance_workflow_state-IsLegalStep world policy started at_gate to_gate reaches_gate

advance_workflow_state-closed_example :
    (advance_workflow_state world policy completed to_gate ≡ raise terminal)
    ⊎ ((advance_workflow_state world policy completed to_gate ≡ raise blocked_needs_resume)
        ⊎ (advance_workflow_state world policy completed to_gate ≡ raise budgets_exhausted))
advance_workflow_state-closed_example =
    advance_workflow_state-closed world policy completed to_gate completed_validates (complete refl)

Advances-bounded_example : 2 + started.transitions_used ≤ policy.max_transitions + 1
Advances-bounded_example = Advances-bounded world policy 2 started completed refl run_of_two

new_workflow_state_complete_example :
    (started.run_id ≡ "run")
    × (started.target_gate ≡ "research_gate")
    × IsCompleted world policy 2 started completed
new_workflow_state_complete_example =
    new_workflow_state_complete world policy start started completed 2 starts run_of_two refl

in_progress-not_blocked : at_gate.status ≢ "blocked"
in_progress-not_blocked e = cc

advance_workflow_state-IsEvidenced_example : IsEvidenced world at_gate
advance_workflow_state-IsEvidenced_example =
    advance_workflow_state-IsEvidenced world policy started at_gate to_gate reaches_gate
      in_progress-not_blocked refl
