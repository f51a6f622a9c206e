-- ===== src/Ledger/Issues.antt =====
-- The findings of the ledger's verifiers (`ValidationIssue`, by entry and message) and the errors
-- that its functions raise (`LedgerError`, by message).
use the_pass.Prelude.{ℕ, Bool, true, false, List}

-- The texts that `run_lineage_issue` returns.
pub data Lineage : Type 0 where
  requires_both_fields : Lineage
  unknown_prior_package : Lineage
  strategy_changed : Lineage
  run_id_repeated : Lineage
  artifacts_hash_differs : Lineage

pub data Fault : Type 0 where
  unsupported_schema : Fault
  unsupported_entry_kind : Fault
  bad_registration : Fault
  previous_hash_differs : Fault
  entry_hash_differs : Fault
  package_path_empty : Fault
  package_directory_missing : Fault
  artifacts_empty : Fault
  artifact_not_object : ℕ → Fault
  artifact_path_empty : ℕ → Fault
  artifact_escapes : ℕ → Fault
  artifact_missing : ℕ → Fault
  artifact_hash_differs : ℕ → Fault
  attempt_not_cumulative : Fault
  run_not_reproduced : Fault
  run_differs : Fault
  bad_lineage : Lineage → Fault
  duplicate_package_id : Fault
  decision_count : Fault
  run_not_recorded : Fault
  decision_not_object : Fault
  decision_not_reproduced : Fault
  decision_differs : Fault
  gate_entry_differs : Fault

pub data Issue : Type 0 where
  ledger_missing : Issue
  entry : ℕ → Fault → Issue

pub data LedgerError : Type 0 where
  invalid_json : ℕ → LedgerError
  entry_not_object : ℕ → LedgerError
  invalid_ledger : List Issue → LedgerError
  invalid_package : LedgerError
  missing_core_artifact : LedgerError
  core_artifact_not_object : LedgerError
  -- an `ArtifactValidationError` of `load_document`, and a `ValueError` of `relative_to`
  unreadable_document : LedgerError
  path_outside_package : LedgerError
  invalid_lineage : Lineage → LedgerError
  recorded_elsewhere : LedgerError
  too_few_variants : LedgerError
  invalid_decision : LedgerError
  decision_not_object : LedgerError
  non_canonical_gate : LedgerError
  misnamed_decision : LedgerError
  ambiguous_decision : LedgerError
  decision_package_path_empty : LedgerError
  decision_outside_package : LedgerError
  package_id_differs : LedgerError
  run_not_recorded : LedgerError
  decision_not_reproduced : LedgerError
  decision_differs : LedgerError
  evidence_empty : LedgerError
  evidence_not_object : LedgerError
  evidence_escapes : LedgerError
  evidence_differs : LedgerError

-- The two that no `except LedgerError` catches.
abbrev pub is_ledger_error : LedgerError → Bool
is_ledger_error unreadable_document = false
is_ledger_error path_outside_package = false
is_ledger_error _ = true
