-- ===== src/Workflow/Advance.antt =====
-- orchestration.py: `advance_workflow_state`, phase by phase.
use the_pass.Prelude.{
  ◌+◌, String, Bool, true, false, not, ◌&&◌, Option, none, some, [], ◌∷◌, ◌++◌, str_eq, is_empty,
  all_of, dedup, map, leb, if◌then◌else◌,
}
use the_pass.Prelude.Result.{Result, ok, ◌>>=◌, ◌>>◌, raise_if}
use the_pass.Workflow.Errors.{WorkflowError, evidence_not_found, package_update_mismatch}
use the_pass.Workflow.State.{
  Policy, World, State, is_none, same, needs_reviewer, is_independent, validate_workflow_state,
}
use the_pass.Workflow.Evidence.{verify_workflow_evidence}
use the_pass.Workflow.Start.{or_now}
use the_pass.Workflow.Checks.{
  Move, destination, check_resumable, is_remediation_attempt, check_remediation, check_transition,
}

-- The state that a used-up budget or a missing reviewer leaves.
abbrev pub blocked_by : World → Move → State → String → String → State
blocked_by w m s blocker next_action = record s {
  status = "blocked";
  blockers = blocker ∷ [];
  next_action = next_action;
  updated_at = or_now w m.timestamp;
}

-- `validate_workflow_state(updated, policy); return updated`
abbrev pub validated : World → Policy → State → Result WorkflowError State
validated w p s = validate_workflow_state w p s >>= λ _. ok s

-- `reviewer if reviewer is not None else state.get("reviewer")`
abbrev pub effective_reviewer : State → Move → Option String
effective_reviewer s m = elim m.reviewer [ none ↦ s.reviewer | some r ↦ some r ]

-- The last phase: the stage, the status and the evidence are written.
unfoldable pub finish_move :
    World → Policy → State → Move → State → Option String → Result WorkflowError State
finish_move w p s m updated reviewer = do
  let fresh = map w.resolve m.evidence_paths
  raise_if (not (all_of w.host.exists fresh)) evidence_not_found
  raise_if (not (same (is_none m.package_path) (is_none m.package_id))) package_update_mismatch
  let final : State = record updated {
    reviewer = reviewer;
    stage = destination s m;
    status = m.status;
    updated_at = or_now w m.timestamp;
    next_action = m.next_action;
    blockers = m.blockers;
    evidence_paths = dedup [] (s.evidence_paths ++ fresh);
    package_path = elim m.package_path [
      | none ↦ updated.package_path
      | some q ↦ some (w.resolve q)
    ];
    package_id = elim m.package_id [ none ↦ updated.package_id | some i ↦ some i ];
  }
  validate_workflow_state w p final
  verify_workflow_evidence w final
  ok final

-- `not effective_reviewer` of a reviewer that is there.
abbrev pub is_unnamed : Option String → Bool
is_unnamed none = true
is_unnamed (some r) = is_empty r

-- The reviewer phase: a review stage without an independent reviewer blocks.
unfoldable pub review_move : World → Policy → State → Move → State → Result WorkflowError State
review_move w p s m updated = elim (needs_reviewer p (destination s m)) [
  | false ↦
      finish_move w p s m updated (elim m.reviewer [ none ↦ updated.reviewer | some r ↦ some r ])
  | true ↦
      elim (is_independent s (effective_reviewer s m)
        && not (is_unnamed (effective_reviewer s m))) [
          | true ↦ finish_move w p s m updated (effective_reviewer s m)
          | false ↦ validated w p (
              blocked_by w m (record updated { reviewer = effective_reviewer s m })
                "independent reviewer must be present and differ from strategy and run owners"
                "invoke /the-pass:review in an independent review context")
        ]
]

-- The remediation phase counts the laps, and those without progress.
unfoldable pub remediate_move : World → Policy → State → Move → State → Result WorkflowError State
remediate_move w p s m updated = elim (is_remediation_attempt s m) [
  | false ↦ review_move w p s m updated
  | true ↦ elim (leb p.max_remediation_laps updated.remediation_laps) [
    | true ↦ validated w p (
        blocked_by w m updated "workflow remediation budget exhausted"
          "independent review must redefine the remediation scope")
    | false ↦
        let lap : State = record updated {
          remediation_laps = updated.remediation_laps + 1;
          no_progress_laps = if m.moved_gate then 0 else updated.no_progress_laps + 1;
        } in
        elim (leb p.max_no_progress lap.no_progress_laps) [
          | true ↦ validated w p (
              blocked_by w m lap "two consecutive remediation laps made no gate progress"
                "block or kill instead of continuing the loop")
          | false ↦ review_move w p s m lap
        ]
  ]
]

-- The transition budget. Completing a verified target is outside it.
unfoldable pub spend_transition : World → Policy → State → Move → Result WorkflowError State
spend_transition w p s m = elim (str_eq (destination s m) "complete") [
  | true ↦ remediate_move w p s m s
  | false ↦ elim (leb p.max_transitions s.transitions_used) [
    | true ↦ validated w p (
        blocked_by w m s "workflow transition budget exhausted"
          "review workflow scope and start a new bounded run")
    | false ↦ remediate_move w p s m (record s { transitions_used = s.transitions_used + 1 })
  ]
]

unfoldable pub advance_workflow_state : World → Policy → State → Move → Result WorkflowError State
advance_workflow_state w p s m = do
  validate_workflow_state w p s
  check_resumable p s m
  check_remediation w s m
  check_transition w p s m
  spend_transition w p s m
