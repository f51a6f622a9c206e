-- ===== src/Workflow/Checks.antt =====
-- orchestration.py: what `advance_workflow_state` checks of a move before it changes the state.
use the_pass.Prelude.{
  String, Bool, true, false, not, ◌&&◌, ◌||◌, Option, none, some, List, [], str_eq, is_nil,
  is_blank, is_empty, mem_text, lookup, leb, if◌then◌else◌,
}
use the_pass.Prelude.Result.{Result, ok, ◌>>=◌, ◌>>◌, raise_if}
use the_pass.Workflow.Errors.{
  WorkflowError, unknown_status, terminal, blocked_needs_resume, budgets_exhausted, no_next_action,
  remediation_accounting, remediation_status, remediation_evidence, moved_gate_misused,
  illegal_transition, complete_status, complete_stage, target_passed_must_complete,
  target_failed_must_stop, target_not_reached, target_not_passed,
}
use the_pass.Workflow.State.{Policy, World, State}
use the_pass.Workflow.Evidence.{workflow_target_passes}
use the_pass.Workflow.Remediation.{
  confirmed_finding_artifact, verify_target_remediation_entry, verify_remediation_progress,
}

-- The arguments of `advance_workflow_state`. A missing list is an empty one, as the source reads it.
pub record Move : Type 0 where
  pub to_stage : Option String
  pub status : String
  pub next_action : String
  pub reviewer : Option String
  pub evidence_paths : List String
  pub blockers : List String
  pub package_path : Option String
  pub package_id : Option String
  pub remediation : Bool
  pub moved_gate : Bool
  pub resume : Bool
  pub timestamp : Option String

-- `to_stage or current_stage`
abbrev pub destination : State → Move → String
destination s m = elim m.to_stage [ none ↦ s.stage | some t ↦ if is_empty t then s.stage else t ]

-- `status in TERMINAL_STATUSES`
abbrev pub is_terminal : String → Bool
is_terminal status = str_eq status "killed" || str_eq status "complete"

-- One of the three budgets is used up.
abbrev pub is_exhausted : Policy → State → Bool
is_exhausted p s =
    leb p.max_transitions s.transitions_used
    || leb p.max_remediation_laps s.remediation_laps
    || leb p.max_no_progress s.no_progress_laps

unfoldable pub check_resumable : Policy → State → Move → Result WorkflowError (Unit {0})
check_resumable p s m = do
  raise_if (is_terminal s.status) terminal
  raise_if (str_eq s.status "blocked" && not m.resume) blocked_needs_resume
  raise_if (str_eq s.status "blocked" && (m.resume && is_exhausted p s)) budgets_exhausted
  raise_if (not (mem_text m.status p.statuses)) unknown_status
  raise_if (is_blank m.next_action) no_next_action

abbrev pub is_remediation_attempt : State → Move → Bool
is_remediation_attempt s m =
    m.remediation || (str_eq (destination s m) "remediation" && str_eq m.status "in_progress")

abbrev pub is_entering_remediation : State → Move → Bool
is_entering_remediation s m =
    not (str_eq s.stage "remediation") && str_eq (destination s m) "remediation"

-- Entering remediation takes a confirmed finding; at the target gate it takes one that the failed
-- decision fingerprints.
check_entry : World → State → Move → Result WorkflowError (Unit {0})
check_entry w s m = do
  raise_if (not (str_eq m.status "in_progress")) remediation_status
  raise_if (is_nil m.evidence_paths) remediation_evidence
  elim (str_eq s.stage s.target_gate) [
    | true ↦ verify_target_remediation_entry w s m.evidence_paths
    | false ↦ confirmed_finding_artifact w none m.evidence_paths >>= λ _. ok tt
  ]

unfoldable pub check_remediation : World → State → Move → Result WorkflowError (Unit {0})
unfolding check_entry
check_remediation w s m = do
  raise_if
      (m.remediation
        && not (str_eq s.stage "remediation")
        && not (str_eq (destination s m) "remediation"))
      remediation_accounting
  elim (is_entering_remediation s m) [ false ↦ ok tt | true ↦ check_entry w s m ]
  raise_if (m.moved_gate && not (is_remediation_attempt s m)) moved_gate_misused
  elim (is_remediation_attempt s m && m.moved_gate) [
    | false ↦ ok tt
    | true ↦ verify_remediation_progress w s m.package_path m.package_id
  ]

-- `policy["stages"][stage]["transitions"]`
abbrev pub transitions_from : Policy → String → List String
transitions_from p stage = elim (lookup stage p.stages) [ none ↦ [] | some c ↦ c.transitions ]

abbrev pub may_leave_failed_target : State → Move → Bool
may_leave_failed_target s m =
    let here = str_eq (destination s m) s.stage in
    (here && (str_eq m.status "blocked" || str_eq m.status "killed"))
    || (here && str_eq m.status "in_progress" && m.resume)
    || (str_eq (destination s m) "remediation" && str_eq m.status "in_progress")

-- At the target gate the workflow completes if the gate has passed, and otherwise stops, resumes
-- or enters remediation.
check_target : World → State → Move → Result WorkflowError (Unit {0})
check_target w s m = do
  passed ← workflow_target_passes w s
  let completing = str_eq (destination s m) "complete"
  raise_if (passed && not completing) target_passed_must_complete
  raise_if (not passed && not completing && not (may_leave_failed_target s m))
      target_failed_must_stop

unfoldable pub check_completion : World → State → Result WorkflowError (Unit {0})
check_completion w s =
    workflow_target_passes w s >>= λ passed. raise_if (not passed) target_not_passed

unfoldable pub check_transition : World → Policy → State → Move → Result WorkflowError (Unit {0})
unfolding check_target check_completion
check_transition w p s m = do
  let to = destination s m
  raise_if (not (str_eq to s.stage) && not (mem_text to (transitions_from p s.stage)))
      illegal_transition
  raise_if (str_eq m.status "complete" && not (str_eq to "complete")) complete_status
  raise_if (str_eq to "complete" && not (str_eq m.status "complete")) complete_stage
  elim (str_eq s.stage s.target_gate) [ false ↦ ok tt | true ↦ check_target w s m ]
  raise_if (str_eq to "complete" && not (str_eq s.stage s.target_gate)) target_not_reached
  elim (str_eq to "complete") [ false ↦ ok tt | true ↦ check_completion w s ]
