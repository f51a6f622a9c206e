-- ===== src/Ledger/Examples.antt =====
-- Tests and instances for ledger.py.
use Prim.Native.Char.{code}
use the_pass.Prelude.{
  ◌==◌, ◌≤◌, String, Bool, true, false, [], ◌∷◌, ◌≡◌, ◌↔◌, ◌⊎◌, refl, sym, ap, ◌∙◌, map, count_of,
  any_of, is_empty,
}
use the_pass.Prelude.Result.{ok, ◌>>=◌}
use the_pass.Json.{Value, null, text, value_eq, equals_int}
use the_pass.Ledger.Entries.{
  hash_entry, read_lines, read_ledger_entries, shape_issues, entry_issues, verify_entries_from,
  verify_ledger_entries,
}
use the_pass.Ledger.Head
use the_pass.Ledger.Head.{head_hash, IsHash, is_null, ShowsPrevious, Collision, sealed_text}
use the_pass.Ledger.Artifacts.{
  candidate_fault, artifact_fault, artifacts_issues, artifact_list_issues, entry_artifact_issues,
  verify_artifacts_from, verify_ledger_artifacts,
}
use the_pass.Ledger.Package.{
  find_artifact, package_relative_path, artifact_identity_sha256, artifact_summary, summarize,
  linked_source_notes,
}
use the_pass.Ledger.RunEntry.{
  collect_artifact_summaries, deterministic_package_id, artifacts_hash, failed_gates,
  build_run_entry, run_lineage_issue,
}
use the_pass.Ledger.Semantics.{
  is_run_of, is_run_at, judge_registration, judge_run, build_gate_ledger_entry, judge_gate, judge,
  verify_semantics_from, verify_ledger_semantics, verify_ledger_file,
}
use the_pass.Ledger.Append.{
  seal, require_valid, record_run, append_ledger_entry, record_decision, append_gate_decision,
  has_passed_gate,
}
use the_pass.Json.Laws.{get-remove}
use the_pass.Ledger.Chain.{IsChain, verify_ledger_entries-eq-nil_iff}
use the_pass.Ledger.Tamper.{head_hash-pins_ledger}
use the_pass.Ledger.Replay.{IsReplayed, verify_ledger_semantics-IsReplayed}
use the_pass.Ledger.Gates.{verify_ledger_semantics-unique_runs, has_passed_gate-recorded}
use the_pass.Ledger.Sample.{
  show, decision_path, host_with, run_entry, entries, host, appended_run, appended_decision,
}

reads_none : read_ledger_entries (host_with []) "old" ≡ ok []
unfolding ◌>>=◌ read_lines read_ledger_entries
reads_none = refl

reads_run : read_ledger_entries (host_with (run_entry ∷ [])) "new" ≡ ok (run_entry ∷ [])
unfolding ◌>>=◌ read_lines read_ledger_entries
reads_run = refl

entries_verify : verify_ledger_entries host entries ≡ []
unfolding hash_entry shape_issues entry_issues verify_entries_from verify_ledger_entries value_eq
    equals_int is_empty
entries_verify = refl

entries_replay : verify_ledger_semantics host "new" entries ≡ ok []
unfolding ◌>>=◌ value_eq equals_int is_empty find_artifact package_relative_path
    artifact_identity_sha256 artifact_summary summarize linked_source_notes
    collect_artifact_summaries deterministic_package_id artifacts_hash failed_gates build_run_entry
    run_lineage_issue judge_registration judge_run build_gate_ledger_entry judge_gate judge
    verify_semantics_from verify_ledger_semantics
entries_replay = refl

appends_run : append_ledger_entry (host_with []) "old" "p" null ≡ ok appended_run
unfolding ◌>>=◌ read_lines read_ledger_entries find_artifact package_relative_path
    artifact_identity_sha256 artifact_summary summarize linked_source_notes
    collect_artifact_summaries deterministic_package_id artifacts_hash failed_gates build_run_entry
    run_lineage_issue value_eq equals_int seal hash_entry require_valid record_run
    append_ledger_entry
appends_run = refl

appends_decision :
    append_gate_decision (host_with (run_entry ∷ [])) "new" decision_path ≡ ok appended_decision
unfolding ◌>>=◌ read_lines read_ledger_entries hash_entry shape_issues entry_issues
    verify_entries_from verify_ledger_entries value_eq equals_int is_empty candidate_fault
    artifact_fault artifacts_issues artifact_list_issues entry_artifact_issues verify_artifacts_from
    verify_ledger_artifacts find_artifact package_relative_path artifact_identity_sha256
    artifact_summary summarize linked_source_notes collect_artifact_summaries
    deterministic_package_id artifacts_hash failed_gates build_run_entry run_lineage_issue
    judge_registration judge_run build_gate_ledger_entry judge_gate judge verify_semantics_from
    verify_ledger_semantics verify_ledger_file seal require_valid record_decision
    append_gate_decision
appends_decision = refl

gate_passed : has_passed_gate host "new" entries "pkg_null" "research_gate" "p" ≡ true
unfolding has_passed_gate
gate_passed = refl

-- The text that `show` marked, and whether it did.
after_mark : String → String
after_mark String.[] = ""
after_mark (String.◌∷◌ c s) = s

is_marked : String → Bool
is_marked String.[] = false
is_marked (String.◌∷◌ c s) = code c == 116

show-injective : (v w : Value) → IsHash v → IsHash w → show v ≡ show w → v ≡ w
unfolding after_mark is_marked
show-injective v w is_null is_null e = refl
show-injective v w (Head.is_text s) (Head.is_text t) e = ap (λ x. text (after_mark x)) e
show-injective v w is_null (Head.is_text t) e = let q = ap is_marked e in cc
show-injective v w (Head.is_text s) is_null e = let q = ap is_marked e in cc

host-ShowsPrevious : ShowsPrevious host
host-ShowsPrevious a b v w p q e f same = show-injective v w p q (
    ap show (sym e ∙ sym (get-remove "previous_hash" "entry_hash" a))
    ∙ same
    ∙ ap show (get-remove "previous_hash" "entry_hash" b ∙ f))

verify_ledger_entries-eq-nil_iff_example :
    (verify_ledger_entries host entries ≡ []) ↔ IsChain host null entries
verify_ledger_entries-eq-nil_iff_example = verify_ledger_entries-eq-nil_iff host entries

head_hash-pins_ledger_example :
    (map (sealed_text host) entries ≡ map (sealed_text host) entries) ⊎ Collision host
head_hash-pins_ledger_example =
    head_hash-pins_ledger host entries entries host-ShowsPrevious entries_verify entries_verify refl

verify_ledger_semantics-IsReplayed_example : IsReplayed host "new" [] entries
verify_ledger_semantics-IsReplayed_example =
    verify_ledger_semantics-IsReplayed host "new" entries entries_replay

verify_ledger_semantics-unique_runs_example : count_of (is_run_of (text "pkg_null")) entries ≤ 1
verify_ledger_semantics-unique_runs_example =
    verify_ledger_semantics-unique_runs host "new" entries (text "pkg_null") entries_replay

has_passed_gate-recorded_example :
    any_of (is_run_at host "new" (text "pkg_null") "p") entries ≡ true
has_passed_gate-recorded_example =
    has_passed_gate-recorded host "new" entries "pkg_null" "research_gate" "p" entries_replay
      gate_passed
