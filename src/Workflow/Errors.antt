-- ===== src/Workflow/Errors.antt =====
-- The errors of orchestration.py, one constructor for each message. `forbidden` is
-- `ForbiddenWorkflowError`, and the others are `WorkflowError`.
use the_pass.Ledger.Issues.{LedgerError}

pub data PolicyError : Type 0 where
  schema_version public_skills exit_states no_runtime live_gate_allowed : PolicyError
  limit required_state_fields target_gates statuses no_cli_contracts : PolicyError
  contract_object contract_argv contract_exit_codes_missing contract_exit_codes : PolicyError
  contract_outputs contract_capability no_stages stage_skill stage_contract : PolicyError
  stage_transition stage_reviewer complete_not_terminal target_gate_stage : PolicyError
  unreachable_stages safety_boundary paper_isolation : PolicyError

pub data WorkflowError : Type 0 where
  forbidden : WorkflowError
  policy : PolicyError → WorkflowError
  -- `validate_workflow_state` and `new_workflow_state`
  unsupported_target owners_required unknown_stage unknown_status field_required : WorkflowError
  reviewer_empty transition_budget remediation_budget no_progress_counter : WorkflowError
  evidence_empty blockers_empty reason_required complete_mismatch : WorkflowError
  timestamps reviewer_not_independent package_empty package_mismatch : WorkflowError
  -- `verify_workflow_evidence`
  ledger_required ledger_invalid evidence_missing package_required package_invalid : WorkflowError
  fingerprint_failed package_id_differs run_required artifacts_differ : WorkflowError
  artifact_ambiguous artifact_unlisted gate_required : WorkflowError
  -- the remediation checks
  no_confirmed_finding no_recorded_package finding_outside_package not_exact_run : WorkflowError
  no_failed_decision finding_not_fingerprinted reviewer_differs finding_unbound : WorkflowError
  successor_required successor_same successor_unrecorded : WorkflowError
  -- `advance_workflow_state`
  terminal blocked_needs_resume budgets_exhausted no_next_action : WorkflowError
  remediation_accounting remediation_status remediation_evidence moved_gate_misused : WorkflowError
  illegal_transition complete_status complete_stage target_passed_must_complete : WorkflowError
  target_failed_must_stop target_not_reached target_not_passed evidence_not_found : WorkflowError
  package_update_mismatch : WorkflowError
  ledger : LedgerError → WorkflowError
