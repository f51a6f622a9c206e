-- ===== src/Supervisor/Transition.antt =====
-- workflow_supervisor.py: `validate_supervised_transition`, on the state a driver wrote.
use Prim.Native.Char.{code}
use the_pass.Prelude.{
  ◌+◌, String, Bool, true, false, not, ◌&&◌, ◌||◌, ◌==◌, none, some, leb, any_of, mem_text, str_eq,
  if◌then◌else◌,
}
use the_pass.Prelude.Result.{Result, ok, raise, ◌>>◌, raise_if}
use the_pass.Workflow.Errors.{WorkflowError}
use the_pass.Workflow.State.{Policy, World, State}
use the_pass.Workflow.Evidence.{verify_workflow_evidence}
use the_pass.Workflow.Checks.{transitions_from}

-- The `WorkflowSupervisorError`s, and those of `verify_workflow_evidence`.
pub data SupervisorError : Type 0 where
  changed_immutable_field : SupervisorError
  illegal_transition : SupervisorError
  not_one_transition : SupervisorError
  invalid_counter_jump : SupervisorError
  moved_updated_at_backwards : SupervisorError
  workflow : WorkflowError → SupervisorError

-- `value.startswith(prefix)` and `text in value`.
unfoldable pub starts_with : String → String → Bool
starts_with String.[] s = true
starts_with (String.◌∷◌ c p) String.[] = false
starts_with (String.◌∷◌ c p) (String.◌∷◌ d s) = (code c == code d) && starts_with p s

unfoldable pub contains : String → String → Bool
unfolding starts_with
contains t String.[] = starts_with t String.[]
contains t (String.◌∷◌ c s) = starts_with t (String.◌∷◌ c s) || contains t s

-- The fields of `IMMUTABLE_STATE_FIELDS` that a state has; the schema version is one number.
unfoldable pub same_identity : State → State → Bool
same_identity a b =
    str_eq a.run_id b.run_id
    && str_eq a.strategy_id b.strategy_id
    && str_eq a.objective b.objective
    && str_eq a.target_gate b.target_gate
    && str_eq a.strategy_owner b.strategy_owner
    && str_eq a.run_owner b.run_owner
    && str_eq a.started_at b.started_at
    && str_eq a.ledger_path b.ledger_path

-- `transition_delta == expected_delta`
abbrev pub spends_one : State → State → Bool
spends_one a b =
    if str_eq b.stage "complete"
    then b.transitions_used == a.transitions_used
    else b.transitions_used == a.transitions_used + 1

abbrev pub is_budget_stop : State → State → Bool
is_budget_stop a b =
    str_eq b.stage a.stage
    && str_eq b.status "blocked"
    && (b.transitions_used == a.transitions_used)
    && any_of (contains "budget exhausted") b.blockers

-- `remediation_delta in {0, 1} and no_progress_delta in {-1, 0, 1}`
abbrev pub are_small_jumps : State → State → Bool
are_small_jumps a b =
    (b.remediation_laps == a.remediation_laps || b.remediation_laps == a.remediation_laps + 1)
    && (b.no_progress_laps == a.no_progress_laps
        || b.no_progress_laps == a.no_progress_laps + 1
        || b.no_progress_laps + 1 == a.no_progress_laps)

abbrev pub is_later : World → State → State → Bool
is_later w a b = elim (w.parse_timestamp a.updated_at) [
  | none ↦ false
  | some x ↦ elim (w.parse_timestamp b.updated_at) [ none ↦ false | some y ↦ leb x y ]
]

abbrev pub of_workflow : Result WorkflowError (Unit {0}) → Result SupervisorError (Unit {0})
of_workflow (ok u) = ok u
of_workflow (raise e) = raise (workflow e)

unfoldable pub validate_supervised_transition :
    World → Policy → State → State → Result SupervisorError (Unit {0})
validate_supervised_transition w p before after = do
  raise_if (not (same_identity before after)) changed_immutable_field
  raise_if
      (not (str_eq after.stage before.stage)
        && not (mem_text after.stage (transitions_from p before.stage)))
      illegal_transition
  raise_if (not (spends_one before after) && not (is_budget_stop before after)) not_one_transition
  raise_if (not (are_small_jumps before after)) invalid_counter_jump
  raise_if (not (is_later w before after)) moved_updated_at_backwards
  of_workflow (verify_workflow_evidence w after)
