-- ===== src/Workflow/Sample.antt =====
-- A policy document, a policy and the states of a run, to try orchestration.py on.
use the_pass.Prelude.{String, true, false, none, some, List, [], ◌∷◌}
use the_pass.Json.{Value, boolean, text, integer, pos, array, object, Fields, dict, items}
use the_pass.Ledger.Sample.{host}
use the_pass.Workflow.State.{Policy, World, State}
use the_pass.Workflow.Start.{Start}
use the_pass.Workflow.Checks.{Move}

abbrev pub list : List String → Value
list names = array (items (values names))
  where
    values : List String → List Value
    values [] = []
    values (n ∷ r) = text n ∷ values r

-- A policy document with three stages.
abbrev pub stage : String → List String → Value
stage skill next = object (
    dict (
      ("skill", text skill)
      ∷ ("cli_contracts", list ("validate" ∷ []))
      ∷ ("transitions", list next)
      ∷ []))

abbrev pub document : Fields
document = dict (
    ("schema_version", integer (pos 1))
    ∷ (
      "public_skills",
      object (
          dict (
            ("run", list ("done" ∷ []))
            ∷ ("research", list ("done" ∷ []))
            ∷ ("test", list ("done" ∷ []))
            ∷ ("review", list ("done" ∷ []))
            ∷ ("paper", list ("done" ∷ []))
            ∷ ("plate", list ("done" ∷ []))
            ∷ ("status", list ("done" ∷ []))
            ∷ [])),
    )
    ∷ (
      "runtime",
      object (
          dict (
            ("forbidden_target", text "live_gate")
            ∷ ("target_gates", list ("research_gate" ∷ []))
            ∷ ("max_transitions", integer (pos 2))
            ∷ ("max_remediation_laps", integer (pos 1))
            ∷ ("max_consecutive_no_progress", integer (pos 1))
            ∷ ("required_state_fields", list ("run_id" ∷ []))
            ∷ (
              "statuses",
              list ("in_progress" ∷ "waiting" ∷ "blocked" ∷ "killed" ∷ "complete" ∷ []),
            )
            ∷ [])),
    )
    ∷ (
      "cli_contracts",
      object (
          dict (
            (
              "validate",
              object (
                  dict (
                    ("argv", list ("validate" ∷ []))
                    ∷ ("accepted_exit_codes", array (items (integer (pos 0) ∷ [])))
                    ∷ ("outputs", list ("report" ∷ []))
                    ∷ ("capability", text "read")
                    ∷ [])),
            )
            ∷ [])),
    )
    ∷ (
      "stages",
      object (
          dict (
            ("preflight", stage "run" ("research_gate" ∷ []))
            ∷ ("research_gate", stage "review" ("complete" ∷ []))
            ∷ ("complete", stage "status" [])
            ∷ [])),
    )
    ∷ (
      "safety",
      object (
          dict (
            ("live_gate_target_allowed", boolean false)
            ∷ ("live_gate_pass_transition_allowed", boolean false)
            ∷ ("gate_decision_retryable", boolean false)
            ∷ ("real_order_transport_allowed", boolean false)
            ∷ ("credentials_allowed", boolean false)
            ∷ ("paper_process_isolated", boolean true)
            ∷ [])),
    )
    ∷ [])

-- The same policy as the workflow reads it.
abbrev pub policy : Policy
policy = record {
  forbidden_target = "live_gate";
  target_gates = "research_gate" ∷ [];
  statuses = "in_progress" ∷ "waiting" ∷ "blocked" ∷ "killed" ∷ "complete" ∷ [];
  max_transitions = 2;
  max_remediation_laps = 1;
  max_no_progress = 1;
  stages =
      ("preflight", record { transitions = "research_gate" ∷ []; reviewer_required = false })
      ∷ ("research_gate", record { transitions = "complete" ∷ []; reviewer_required = true })
      ∷ ("complete", record { transitions = []; reviewer_required = false })
      ∷ [];
}

abbrev pub world : World
world = record { host = host; parse_timestamp = λ t. some 0; resolve = λ f. f }

abbrev pub start : Start
start = record {
  run_id = "run";
  objective = "objective";
  target_gate = "research_gate";
  strategy_owner = "sam";
  run_owner = "ron";
  ledger_path = "new";
  strategy_id = "";
  timestamp = none;
}

abbrev pub started : State
started = record {
  run_id = "run";
  strategy_id = "pending";
  objective = "objective";
  target_gate = "research_gate";
  strategy_owner = "sam";
  run_owner = "ron";
  reviewer = none;
  started_at = "2026-07-11";
  updated_at = "2026-07-11";
  stage = "preflight";
  status = "in_progress";
  transitions_used = 0;
  remediation_laps = 0;
  no_progress_laps = 0;
  package_path = none;
  package_id = none;
  ledger_path = "new";
  evidence_paths = [];
  blockers = [];
  next_action = "run preflight";
}

-- To the gate, with the package and an independent reviewer.
abbrev pub to_gate : Move
to_gate = record {
  to_stage = some "research_gate";
  status = "in_progress";
  next_action = "evaluate the gate";
  reviewer = some "rita";
  evidence_paths = "findings.json" ∷ [];
  blockers = [];
  package_path = some "p";
  package_id = some "pkg_null";
  remediation = false;
  moved_gate = false;
  resume = false;
  timestamp = none;
}

abbrev pub at_gate : State
at_gate = record started {
  stage = "research_gate";
  next_action = "evaluate the gate";
  reviewer = some "rita";
  evidence_paths = "findings.json" ∷ [];
  package_path = some "p";
  package_id = some "pkg_null";
  transitions_used = 1;
}

abbrev pub to_complete : Move
to_complete = record to_gate {
  to_stage = some "complete";
  status = "complete";
  next_action = "none";
  evidence_paths = [];
  package_path = none;
  package_id = none;
}

abbrev pub completed : State
completed = record at_gate { stage = "complete"; status = "complete"; next_action = "none" }

-- The three stages of the document.
abbrev pub graph : List (String × List String)
graph =
    ("preflight", "research_gate" ∷ []) ∷ ("research_gate", "complete" ∷ []) ∷ ("complete", []) ∷ []
