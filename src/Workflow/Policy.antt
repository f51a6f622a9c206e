-- ===== src/Workflow/Policy.antt =====
-- orchestration.py: the pipeline policy document, its checks, and the parts that the workflow reads.
use the_pass.Prelude.{
  String, Bool, true, false, not, ◌&&◌, ◌||◌, none, some, List, [], ◌∷◌, any_of, all_of, mem_text,
  str_eq, leb,
}
use the_pass.Prelude.Result.{Result, ok, raise, ◌>>◌, raise_if}
use the_pass.Json.{
  Value, null, boolean, integer, pos, text, array, object, end, item, Fields, nil, field, get,
  is_text, is_filled_text, is_list, is_true, is_false, is_falsy, value_eq, equals_int, list_of,
  as_object, has_key, keys_of, values_of, texts, object_at,
}
use the_pass.Workflow.Errors.{
  PolicyError, schema_version, public_skills, exit_states, no_runtime, live_gate_allowed, limit,
  required_state_fields, target_gates, statuses, no_cli_contracts, contract_object, contract_argv,
  contract_exit_codes_missing, contract_exit_codes, contract_outputs, contract_capability,
  no_stages, stage_skill, stage_contract, stage_transition, stage_reviewer, complete_not_terminal,
  target_gate_stage, unreachable_stages, safety_boundary, paper_isolation,
}
use the_pass.Workflow.Reach.{reachable_stages}

abbrev pub public_skill_names : List String
public_skill_names = "run" ∷ "research" ∷ "test" ∷ "review" ∷ "paper" ∷ "plate" ∷ "status" ∷ []

abbrev pub canonical_statuses : List String
canonical_statuses = "in_progress" ∷ "waiting" ∷ "blocked" ∷ "killed" ∷ "complete" ∷ []

-- `len(values) == len(set(values))`
unique_values : List Value → Bool
unique_values [] = true
unique_values (v ∷ r) = not (any_of (value_eq v) r) && unique_values r

-- `value in names`
abbrev pub is_name_in : List String → Value → Bool
is_name_in names (text t) = mem_text t names
is_name_in names _ = false

same_texts : List String → List String → Bool
same_texts [] [] = true
same_texts (s ∷ r) (t ∷ q) = str_eq s t && same_texts r q
same_texts _ _ = false

-- `isinstance(value, list) and value`
abbrev is_filled_list : Value → Bool
is_filled_list (array (item v r)) = true
is_filled_list _ = false

is_exit_states : Value → Bool
unfolding unique_values
is_exit_states v =
    is_filled_list v && unique_values (list_of v) && all_of is_filled_text (list_of v)

check_skills : Fields → Result PolicyError (Unit {0})
unfolding same_texts is_exit_states
check_skills document = do
  raise_if (not (equals_int 1 (get "schema_version" document))) schema_version
  let skills = object_at "public_skills" document
  raise_if (not (same_texts (keys_of skills) public_skill_names)) public_skills
  raise_if (not (all_of is_exit_states (values_of skills))) exit_states

-- `isinstance(value, int) and value > 0`; a boolean is an `int`.
is_positive : Value → Bool
is_positive (integer (pos n)) = leb 1 n
is_positive (boolean b) = b
is_positive _ = false

-- `set(values) == {…}` for the canonical statuses.
is_status_set : List Value → Bool
is_status_set vs =
    all_of (is_name_in canonical_statuses) vs
    && all_of (λ s. any_of (is_text s) vs) canonical_statuses

unfoldable pub check_runtime : Fields → Result PolicyError (Unit {0})
unfolding unique_values is_positive is_status_set
check_runtime document = do
  elim (as_object (get "runtime" document)) [ none ↦ raise no_runtime | some _ ↦ ok tt ]
  let runtime = object_at "runtime" document
  let targets = get "target_gates" runtime
  raise_if
      (not (is_text "live_gate" (get "forbidden_target" runtime))
        || any_of (is_text "live_gate") (list_of targets))
      live_gate_allowed
  raise_if (not (is_positive (get "max_transitions" runtime))) limit
  raise_if (not (is_positive (get "max_remediation_laps" runtime))) limit
  raise_if (not (is_positive (get "max_consecutive_no_progress" runtime))) limit
  let required = get "required_state_fields" runtime
  raise_if (not (is_list required && unique_values (list_of required))) required_state_fields
  raise_if (not (is_filled_list targets && unique_values (list_of targets))) target_gates
  raise_if
      (not (is_list (get "statuses" runtime) && is_status_set (list_of (get "statuses" runtime))))
      statuses

is_exit_code : Value → Bool
is_exit_code (integer (pos n)) = leb n 3
is_exit_code _ = false

check_contract : Value → Result PolicyError (Unit {0})
unfolding unique_values is_exit_code
check_contract v = elim (as_object v) [
  | none ↦ raise contract_object
  | some c ↦ do
    let codes = get "accepted_exit_codes" c
    raise_if (not (is_filled_list (get "argv" c))) contract_argv
    raise_if (not (is_filled_list codes)) contract_exit_codes_missing
    raise_if (not (unique_values (list_of codes) && all_of is_exit_code (list_of codes)))
        contract_exit_codes
    raise_if (not (is_filled_list (get "outputs" c))) contract_outputs
    raise_if (not (is_filled_text (get "capability" c))) contract_capability
]

check_contracts : List Value → Result PolicyError (Unit {0})
unfolding check_contract
check_contracts [] = ok tt
check_contracts (v ∷ r) = check_contract v >> check_contracts r

-- The checks of one stage, against the names of the skills, the contracts and the stages.
unfoldable pub check_stage :
    List String → List String → List String → Value → Result PolicyError (Unit {0})
unfolding unique_values
check_stage skills contracts stages v = elim (as_object v) [
  | none ↦ raise stage_skill
  | some s ↦ do
    let used = get "cli_contracts" s
    let transitions = get "transitions" s
    raise_if (not (is_name_in skills (get "skill" s))) stage_skill
    raise_if (not (is_list used && all_of (is_name_in contracts) (list_of used))) stage_contract
    raise_if
        (not (
          is_list transitions
          && unique_values (list_of transitions)
          && all_of (is_name_in stages) (list_of transitions)))
        stage_transition
    raise_if
        (is_text "independent_reviewer" (get "role" s) && not (is_true (get "reviewer_required" s)))
        stage_reviewer
]

unfoldable pub check_stages :
    List String → List String → List String → List Value → Result PolicyError (Unit {0})
unfolding check_stage
check_stages skills contracts stages [] = ok tt
check_stages skills contracts stages (v ∷ r) =
    check_stage skills contracts stages v >> check_stages skills contracts stages r

-- The stages with the names that their `transitions` list.
abbrev pub stage_graph : Fields → List (String × List String)
stage_graph nil = []
stage_graph (field name v r) =
    (name, texts (list_of (elim (as_object v) [ none ↦ null | some s ↦ get "transitions" s ])))
    ∷ stage_graph r

-- `reachable != stage_names`, as sets.
abbrev pub covers : List String → List String → Bool
covers names reached =
    all_of (λ n. mem_text n reached) names && all_of (λ n. mem_text n names) reached

unfoldable pub check_graph : Fields → Result PolicyError (Unit {0})
check_graph document = do
  let stages = object_at "stages" document
  let names = keys_of stages
  raise_if (not (value_eq (get "transitions" (object_at "complete" stages)) (array end)))
      complete_not_terminal
  raise_if
      (not
        (all_of (is_name_in names) (list_of (get "target_gates" (object_at "runtime" document)))))
      target_gate_stage
  raise_if (not (covers names (reachable_stages (stage_graph stages)))) unreachable_stages

unfoldable pub check_safety : Fields → Result PolicyError (Unit {0})
check_safety document = do
  let safety = object_at "safety" document
  raise_if
      (not (
        all_of (λ k. is_false (get k safety))
          ("live_gate_target_allowed" ∷ "live_gate_pass_transition_allowed"
            ∷ "gate_decision_retryable" ∷ "real_order_transport_allowed" ∷ "credentials_allowed"
            ∷ [])))
      safety_boundary
  raise_if (not (is_true (get "paper_process_isolated" safety))) paper_isolation

unfoldable pub validate_pipeline_policy : Fields → Result PolicyError (Unit {0})
unfolding check_skills check_runtime check_contracts check_stages check_graph check_safety
validate_pipeline_policy document = do
  check_skills document
  check_runtime document
  let contracts = object_at "cli_contracts" document
  raise_if (is_falsy (object contracts)) no_cli_contracts
  check_contracts (values_of contracts)
  let stages = object_at "stages" document
  raise_if (not (has_key "preflight" stages && has_key "complete" stages)) no_stages
  check_stages (keys_of (object_at "public_skills" document)) (keys_of contracts) (keys_of stages)
      (values_of stages)
  check_graph document
  check_safety document
