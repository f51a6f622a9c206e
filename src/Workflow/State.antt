-- ===== src/Workflow/State.antt =====
-- orchestration.py: the workflow state, the parts of the policy that it is checked against, and
-- `validate_workflow_state`. The fields of the state have their types by the record, which is what
-- the source's field-set and `isinstance` checks establish.
use the_pass.Prelude.{
  ℕ, String, Bool, true, false, not, ◌&&◌, ◌||◌, Option, none, some, List, [], ◌∷◌, str_eq,
  is_blank, is_empty, is_nil, any_of, mem_text, lookup, keys, ltb, leb,
}
use the_pass.Prelude.Result.{Result, ◌>>◌, raise_if}
use the_pass.Ledger.Host.{Host}
use the_pass.Workflow.Errors.{
  WorkflowError, forbidden, unsupported_target, unknown_stage, unknown_status, field_required,
  reviewer_empty, transition_budget, remediation_budget, no_progress_counter, evidence_empty,
  blockers_empty, reason_required, complete_mismatch, timestamps, reviewer_not_independent,
  package_empty, package_mismatch,
}

pub record Stage : Type 0 where
  pub transitions : List String
  pub reviewer_required : Bool

pub record Policy : Type 0 where
  pub forbidden_target : String
  pub target_gates : List String
  pub statuses : List String
  pub max_transitions : ℕ
  pub max_remediation_laps : ℕ
  pub max_no_progress : ℕ
  pub stages : List (String × Stage)

-- The ledger's environment, `parse_timestamp` as the order of instants, and `Path.resolve`.
pub record World : Type 0 where
  pub host : Host
  pub parse_timestamp : String → Option ℕ
  pub resolve : String → String

pub record State : Type 0 where
  pub run_id : String
  pub strategy_id : String
  pub objective : String
  pub target_gate : String
  pub strategy_owner : String
  pub run_owner : String
  pub reviewer : Option String
  pub started_at : String
  pub updated_at : String
  pub stage : String
  pub status : String
  pub transitions_used : ℕ
  pub remediation_laps : ℕ
  pub no_progress_laps : ℕ
  pub package_path : Option String
  pub package_id : Option String
  pub ledger_path : String
  pub evidence_paths : List String
  pub blockers : List String
  pub next_action : String

abbrev pub is_none : Option String → Bool
is_none none = true
is_none (some s) = false

-- A text that is there but fails a test.
abbrev pub some_is : (String → Bool) → Option String → Bool
some_is p none = false
some_is p (some s) = p s

abbrev pub same : Bool → Bool → Bool
same true b = b
same false b = not b

abbrev pub needs_reason : String → Bool
needs_reason status = str_eq status "waiting" || str_eq status "blocked" || str_eq status "killed"

abbrev pub required_texts : State → List String
required_texts s =
    s.run_id ∷ s.strategy_id ∷ s.objective ∷ s.strategy_owner ∷ s.run_owner ∷ s.ledger_path
    ∷ s.next_action ∷ []

-- `stages[name].get("reviewer_required")`
abbrev pub needs_reviewer : Policy → String → Bool
needs_reviewer p name = elim (lookup name p.stages) [ none ↦ false | some c ↦ c.reviewer_required ]

-- The reviewer is there and is neither of the owners.
abbrev pub is_independent : State → Option String → Bool
is_independent s none = false
is_independent s (some r) = not (str_eq r s.strategy_owner || str_eq r s.run_owner)

-- The two timestamps parse, and the update is not before the start.
abbrev pub are_ordered : Option ℕ → Option ℕ → Bool
are_ordered (some a) (some b) = leb a b
are_ordered _ _ = false

unfoldable pub validate_workflow_state : World → Policy → State → Result WorkflowError (Unit {0})
validate_workflow_state w p s = do
  raise_if (str_eq s.target_gate p.forbidden_target) forbidden
  raise_if (not (mem_text s.target_gate p.target_gates)) unsupported_target
  raise_if (not (mem_text s.stage (keys p.stages))) unknown_stage
  raise_if (not (mem_text s.status p.statuses)) unknown_status
  raise_if (any_of is_blank (required_texts s)) field_required
  raise_if (some_is is_blank s.reviewer) reviewer_empty
  raise_if (ltb p.max_transitions s.transitions_used) transition_budget
  raise_if (ltb p.max_remediation_laps s.remediation_laps) remediation_budget
  raise_if (ltb p.max_no_progress s.no_progress_laps) no_progress_counter
  raise_if (any_of is_empty s.evidence_paths) evidence_empty
  raise_if (any_of is_empty s.blockers) blockers_empty
  raise_if (needs_reason s.status && is_nil s.blockers) reason_required
  raise_if (not (same (str_eq s.stage "complete") (str_eq s.status "complete"))) complete_mismatch
  raise_if (not (are_ordered (w.parse_timestamp s.started_at) (w.parse_timestamp s.updated_at)))
      timestamps
  raise_if (needs_reviewer p s.stage && not (is_independent s s.reviewer)) reviewer_not_independent
  raise_if (some_is is_empty s.package_path || some_is is_empty s.package_id) package_empty
  raise_if (not (same (is_none s.package_path) (is_none s.package_id))) package_mismatch
