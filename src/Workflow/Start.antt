-- ===== src/Workflow/Start.antt =====
-- orchestration.py: starting a workflow.
use the_pass.Prelude.{
  String, not, Option, none, some, [], ◌∷◌, str_eq, is_blank, is_empty, any_of, mem_text,
  if◌then◌else◌,
}
use the_pass.Prelude.Result.{Result, ok, ◌>>◌, raise_if}
use the_pass.Workflow.Errors.{WorkflowError, forbidden, unsupported_target, owners_required}
use the_pass.Workflow.State.{Policy, World, State, validate_workflow_state}

-- `timestamp or utc_now_iso()`
abbrev pub or_now : World → Option String → String
or_now w none = w.host.now
or_now w (some t) = if is_empty t then w.host.now else t

-- The arguments of `new_workflow_state`.
pub record Start : Type 0 where
  pub run_id : String
  pub objective : String
  pub target_gate : String
  pub strategy_owner : String
  pub run_owner : String
  pub ledger_path : String
  pub strategy_id : String
  pub timestamp : Option String

unfoldable pub new_workflow_state : World → Policy → Start → Result WorkflowError State
new_workflow_state w p a = do
  raise_if (str_eq a.target_gate p.forbidden_target) forbidden
  raise_if (not (mem_text a.target_gate p.target_gates)) unsupported_target
  raise_if (any_of is_blank (a.run_id ∷ a.objective ∷ a.strategy_owner ∷ a.run_owner ∷ []))
      owners_required
  let s : State = record {
    run_id = a.run_id;
    strategy_id = if is_empty a.strategy_id then "pending" else a.strategy_id;
    objective = a.objective;
    target_gate = a.target_gate;
    strategy_owner = a.strategy_owner;
    run_owner = a.run_owner;
    reviewer = none;
    started_at = or_now w a.timestamp;
    updated_at = or_now w a.timestamp;
    stage = "preflight";
    status = "in_progress";
    transitions_used = 0;
    remediation_laps = 0;
    no_progress_laps = 0;
    package_path = none;
    package_id = none;
    ledger_path = w.resolve a.ledger_path;
    evidence_paths = [];
    blockers = [];
    next_action = "run preflight";
  }
  validate_workflow_state w p s
  ok s
