-- ===== src/Supervisor/Examples.antt =====
-- Tests and instances for workflow_supervisor.py.
use the_pass.Prelude.{none, some, [], ◌∷◌, ◌≡◌, ◌⊎◌, refl, is_blank, is_empty}
use the_pass.Prelude.Result.{ok, ◌>>=◌}
use the_pass.Json.{text, dict, value_eq, equals_int}
use the_pass.Ledger.Entries.{
  hash_entry, read_lines, read_ledger_entries, shape_issues, entry_issues, verify_entries_from,
  verify_ledger_entries,
}
use the_pass.Ledger.Artifacts.{
  candidate_fault, artifact_fault, artifacts_issues, artifact_list_issues, entry_artifact_issues,
  verify_artifacts_from, verify_ledger_artifacts,
}
use the_pass.Ledger.Package.{
  find_artifact, package_relative_path, artifact_identity_sha256, artifact_summary, summarize,
  linked_source_notes,
}
use the_pass.Ledger.RunEntry.{
  collect_artifact_summaries, deterministic_package_id, artifacts_hash, failed_gates,
  build_run_entry, run_lineage_issue,
}
use the_pass.Ledger.Semantics.{
  judge_registration, judge_run, build_gate_ledger_entry, judge_gate, judge, verify_semantics_from,
  verify_ledger_semantics, verify_ledger_file,
}
use the_pass.Ledger.Append.{has_passed_gate}
use the_pass.Workflow.State.{validate_workflow_state}
use the_pass.Workflow.Evidence.{
  verify_package, verify_workflow_evidence, workflow_target_passes, passes_in,
}
use the_pass.Workflow.Sample.{policy, world, started, at_gate}
use the_pass.Supervisor.Files.{tree_snapshot}
use the_pass.Supervisor.Transaction.{
  system_error, copy_path, apply_path, apply_paths, restore, rollback, commit, cleanup, apply,
}
use the_pass.Supervisor.Atomic.{IsAtomic, apply-IsAtomic}
use the_pass.Supervisor.Transition.{
  starts_with, contains, same_identity, validate_supervised_transition,
}
use the_pass.Supervisor.Loop.{Outcome, supervise_workflow}
use the_pass.Supervisor.Ends.{IsEnded, supervise_workflow-IsEnded}
use the_pass.Supervisor.Remap.{
  IsRoot, local, below, outside, FieldsPortable, of_text, a_field, no_fields, remap_rooted_paths,
  isolated, remap_candidate, remap_candidate-isolated,
}
use the_pass.Supervisor.Scope.{
  changed_between, is_evidence, is_in_package, may_review, check_path, check_paths, prepare,
}
use the_pass.Supervisor.Scoped.{InScope, prepare-InScope}
use the_pass.Supervisor.Sample.{
  baseline, observed, candidate, paths, proposal, system, transaction, drivers,
}

-- Both changes are applied, and undone; a failing write undoes the first one.
transactions :
    ((apply system (transaction ("findings.json" ∷ "draft.json" ∷ []))).1 ≡ none)
    × ((apply system (transaction ("findings.json" ∷ "draft.json" ∷ []))).0.caller "draft.json"
        ≡ none)
    × ((apply system (transaction ("findings.json" ∷ "locked.json" ∷ []))).1
        ≡ some (system_error "locked.json"))
unfolding tree_snapshot copy_path apply_path apply_paths restore rollback commit cleanup apply
transactions = (refl, refl, refl)

accepted : validate_supervised_transition world policy started at_gate ≡ ok tt
unfolding ◌>>=◌ hash_entry read_lines read_ledger_entries shape_issues entry_issues
    verify_entries_from verify_ledger_entries candidate_fault artifact_fault artifacts_issues
    artifact_list_issues entry_artifact_issues verify_artifacts_from verify_ledger_artifacts
    find_artifact package_relative_path artifact_identity_sha256 artifact_summary summarize
    linked_source_notes collect_artifact_summaries deterministic_package_id artifacts_hash
    failed_gates build_run_entry run_lineage_issue judge_registration judge_run
    build_gate_ledger_entry judge_gate judge verify_semantics_from verify_ledger_semantics
    verify_ledger_file has_passed_gate value_eq equals_int is_empty is_blank validate_workflow_state
    verify_package verify_workflow_evidence workflow_target_passes passes_in contains same_identity
    validate_supervised_transition
accepted = refl

started_validates : validate_workflow_state world policy started ≡ ok tt
unfolding ◌>>=◌ is_empty is_blank validate_workflow_state
started_validates = refl

apply-IsAtomic_example : IsAtomic system (transaction ("findings.json" ∷ "draft.json" ∷ []))
apply-IsAtomic_example =
    apply-IsAtomic system (transaction ("findings.json" ∷ "draft.json" ∷ [])) refl

supervise_workflow-IsEnded_example :
    (o : Outcome) × (supervise_workflow world policy drivers none started ≡ some o) × IsEnded o
supervise_workflow-IsEnded_example =
    supervise_workflow-IsEnded world policy drivers started started_validates

home : IsRoot paths "/home"
unfolding paths
home = record { absolute = λ r e. refl; returns = λ r e. refl }

temporary : IsRoot paths "/tmp/w"
unfolding paths
temporary = record { absolute = λ r e. refl; returns = λ r e. refl }

proposal-FieldsPortable : FieldsPortable paths "/home" "/tmp/w" proposal
unfolding paths
proposal-FieldsPortable =
    a_field (of_text (below "package" refl refl refl))
      (a_field (of_text (outside refl refl)) (a_field (of_text (local refl)) no_fields))

remapped :
    isolated paths "/home" "/tmp/w" proposal
    ≡ dict (
        ("package_path", text "/tmp/w/package")
        ∷ ("ledger", text "/var/ledger")
        ∷ ("run", text "run")
        ∷ [])
unfolding paths remap_rooted_paths
remapped = refl

remap_candidate-isolated_example :
    remap_candidate paths "/home" "/tmp/w" (isolated paths "/home" "/tmp/w" proposal) ≡ proposal
remap_candidate-isolated_example =
    remap_candidate-isolated paths "/home" "/tmp/w" proposal home temporary proposal-FieldsPortable

prepared : prepare paths candidate baseline observed ≡ ok ("draft.json" ∷ "findings.json" ∷ [])
unfolding ◌>>=◌ paths starts_with changed_between is_evidence is_in_package may_review check_path
    check_paths prepare
prepared = refl

prepare-InScope_example :
    ((cleanup system
          (commit (apply system (transaction ("draft.json" ∷ "findings.json" ∷ []))).0)).0.caller
        "ledger.jsonl"
      ≡ (transaction ("draft.json" ∷ "findings.json" ∷ [])).caller "ledger.jsonl")
    ⊎ InScope paths candidate observed "ledger.jsonl"
prepare-InScope_example =
    prepare-InScope paths candidate baseline observed system
      (transaction ("draft.json" ∷ "findings.json" ∷ [])) prepared refl "ledger.jsonl"
