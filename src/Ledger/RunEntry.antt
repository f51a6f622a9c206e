-- ===== src/Ledger/RunEntry.antt =====
-- ledger.py: the fingerprint of a package and the run entry built from it.
use Prim.Native.Nat.{Ordering}
use Prim.Native.String.{◌++◌ as text_append, slice, compare as text_compare}
use the_pass.Prelude.{
  String, Bool, true, false, not, ◌&&◌, ◌||◌, Option, none, some, List, [], ◌∷◌, ◌++◌, map, select,
  mem_text, if◌then◌else◌, find_first,
}
use the_pass.Prelude.Result.{Result, ok, raise, ◌>>=◌, ◌>>◌, raise_if}
use the_pass.Json.{
  Value, null, text, array, object, Fields, nil, get, get_or, insert, is_str, is_null, is_falsy,
  is_text, text_or_empty, list_of, dict, items, as_object, value_eq,
}
use the_pass.Ledger.Host.{Host}
use the_pass.Ledger.Issues.{
  LedgerError, invalid_package, missing_core_artifact, Lineage, requires_both_fields,
  unknown_prior_package, strategy_changed, run_id_repeated, artifacts_hash_differs,
}
use the_pass.Ledger.Entries.{schema_v2, is_v2, is_kind}
use the_pass.Ledger.Package.{
  package_core_artifacts, package_optional_artifacts, find_artifact, load, load_object,
  artifact_summary, summarize, linked_source_notes,
}

-- The artifacts of the listed types that the package has.
found_artifacts : Host → String → List String → List (String × String)
found_artifacts h package_dir [] = []
found_artifacts h package_dir (t ∷ ts) = elim (find_artifact h package_dir t) [
  | none ↦ found_artifacts h package_dir ts
  | some path ↦ (t, path) ∷ found_artifacts h package_dir ts
]

abbrev paths_of : List (String × String) → List String
paths_of [] = []
paths_of ((t, path) ∷ r) = path ∷ paths_of r

-- The artifacts whose paths are not in `seen` yet; each joins `seen`.
unseen : List String → List (String × String) → List (String × String)
unseen seen [] = []
unseen seen ((t, path) ∷ r) =
    let fresh = unseen (path ∷ seen) r in
    let old = unseen seen r in if mem_text path seen then old else (t, path) ∷ fresh

-- `key(a) <= key(b)` for the key `(type, path)`.
sorts_before : Fields → Fields → Bool
sorts_before a b =
    elim (text_compare (text_or_empty (get "type" a)) (text_or_empty (get "type" b))) [
      | Ordering.lt ↦ true
      | Ordering.gt ↦ false
      | Ordering.eq ↦
          elim (text_compare (text_or_empty (get "path" a)) (text_or_empty (get "path" b))) [
            | Ordering.gt ↦ false
            | _ ↦ true
          ]
    ]

insert_sorted : Fields → List Fields → List Fields
insert_sorted a [] = a ∷ []
insert_sorted a (b ∷ r) = if sorts_before a b then a ∷ b ∷ r else b ∷ insert_sorted a r

sort_summaries : List Fields → List Fields
sort_summaries [] = []
sort_summaries (a ∷ r) = insert_sorted a (sort_summaries r)

-- The notes that the verdict links, if there is a verdict.
verdict_notes : Host → String → Result LedgerError (List (String × String))
verdict_notes h package_dir = elim (find_artifact h package_dir "verdict_report") [
  | none ↦ ok []
  | some path ↦ load h path >>= λ d.
      ok (elim (as_object d) [ none ↦ [] | some m ↦ linked_source_notes h package_dir m ])
]

unfoldable pub collect_artifact_summaries : Host → String → Result LedgerError (List Fields)
unfolding found_artifacts unseen sorts_before insert_sorted sort_summaries verdict_notes
collect_artifact_summaries h package_dir = do
  let listed = found_artifacts h package_dir (package_core_artifacts ++ package_optional_artifacts)
  let evidence = unseen (paths_of listed) (h.package_evidence_paths package_dir)
  linked ← verdict_notes h package_dir
  let notes = unseen (paths_of listed ++ paths_of evidence) linked
  summaries ← summarize h package_dir (listed ++ (evidence ++ notes))
  ok (sort_summaries summaries)

abbrev identity_of : Fields → Value
identity_of s = object (
    dict (
      ("path", get "path" s)
      ∷ ("sha256", get_or "identity_sha256" (get "sha256" s) s)
      ∷ ("type", get "type" s)
      ∷ []))

unfoldable pub deterministic_package_id : Host → List Fields → String → String → String
deterministic_package_id h summaries run_id strategy_id = text_append "pkg_" (
    slice
      (h.sha256_text (
        h.canonical_json (
          object (
            dict (
              ("artifacts", array (items (map identity_of summaries)))
              ∷ ("run_id", text run_id)
              ∷ ("strategy_id", text strategy_id)
              ∷ [])))))
      0 24)

unfoldable pub artifacts_hash : Host → Fields → String
artifacts_hash h e = h.sha256_text (h.canonical_json (get_or "artifacts" (array (items [])) e))

unfoldable pub failed_gates : Fields → List Value
failed_gates verdict = elim (as_object (get "gate_results" verdict)) [
  | none ↦ []
  | some m ↦ select is_str (list_of (get "failed_gates" m))
]

-- `recorded_at or utc_now_iso()`
abbrev pub or_now : Host → Value → Value
or_now h recorded_at = if is_falsy recorded_at then text h.now else recorded_at

-- The path of an artifact that `build_run_entry` requires.
core_artifact : Host → String → String → Result LedgerError String
core_artifact h package_dir artifact_type = elim (find_artifact h package_dir artifact_type) [
  | none ↦ raise missing_core_artifact
  | some path ↦ ok path
]

abbrev source_notes_of : List Fields → List Value
source_notes_of ss = map object (select (λ s. is_text "source_note" (get "type" s)) ss)

abbrev pub with_lineage : Fields → Fields → Fields
with_lineage run_receipt e =
    let id = get "supersedes_package_id" run_receipt in
    let hash = get "supersedes_artifacts_hash" run_receipt in
    if is_null id && is_null hash
    then e
    else insert "supersedes_artifacts_hash" hash (insert "supersedes_package_id" id e)

unfoldable pub build_run_entry : Host → String → Value → String → Result LedgerError Fields
unfolding core_artifact
build_run_entry h package_dir recorded_at ledger_path = do
  raise_if (not (h.validate_package package_dir (some ledger_path))) invalid_package
  strategy_spec_path ← core_artifact h package_dir "strategy_spec"
  run_receipt_path ← core_artifact h package_dir "run_receipt"
  data_manifest_path ← core_artifact h package_dir "data_manifest"
  metrics_report_path ← core_artifact h package_dir "metrics_report"
  cost_waterfall_path ← core_artifact h package_dir "cost_waterfall"
  verdict_report_path ← core_artifact h package_dir "verdict_report"
  strategy_spec ← load_object h strategy_spec_path
  run_receipt ← load_object h run_receipt_path
  verdict ← load_object h verdict_report_path
  summaries ← collect_artifact_summaries h package_dir
  let strategy_id = text_or_empty (get "id" strategy_spec)
  let run_id = text_or_empty (get "id" run_receipt)
  data_manifest ← artifact_summary h package_dir "data_manifest" data_manifest_path
  metrics_report ← artifact_summary h package_dir "metrics_report" metrics_report_path
  cost_waterfall ← artifact_summary h package_dir "cost_waterfall" cost_waterfall_path
  verdict_report ← artifact_summary h package_dir "verdict_report" verdict_report_path
  ok (
      with_lineage run_receipt (
        dict (
          ("schema", text schema_v2)
          ∷ ("entry_kind", text "run")
          ∷ ("recorded_at", or_now h recorded_at)
          ∷ ("package_id", text (deterministic_package_id h summaries run_id strategy_id))
          ∷ ("package_path", text (h.relpath package_dir ledger_path))
          ∷ ("strategy_id", text strategy_id)
          ∷ ("run_id", text run_id)
          ∷ ("verdict", text (text_or_empty (get "verdict" verdict)))
          ∷ ("data_manifest", object data_manifest)
          ∷ ("metrics_report", object metrics_report)
          ∷ ("cost_waterfall", object cost_waterfall)
          ∷ ("verdict_report", object verdict_report)
          ∷ ("source_notes", array (items (source_notes_of summaries)))
          ∷ ("artifacts", array (items (map object summaries)))
          ∷ ("open_blockers", array (items (failed_gates verdict)))
          ∷ ("next_action", text (text_or_empty (get "next_action" verdict)))
          ∷ ("safety", get_or "safety" (object nil) run_receipt)
          ∷ ("previous_hash", null)
          ∷ [])))

-- `run_lineage_issue`: a successor run keeps the strategy of a recorded predecessor, takes a new
-- run id and names the predecessor's artifacts.
unfoldable pub run_lineage_issue : Host → Fields → List Fields → Option Lineage
run_lineage_issue h e prior =
    let id = get "supersedes_package_id" e in
    let hash = get "supersedes_artifacts_hash" e in
    if is_null id && is_null hash
    then none
    else if not (is_str id) || not (is_str hash)
    then some requires_both_fields
    else elim (find_first
        (λ p. is_v2 p && is_kind "run" p && is_text (text_or_empty id) (get "package_id" p))
        prior) [
          | none ↦ some unknown_prior_package
          | some p ↦
              if not (value_eq (get "strategy_id" p) (get "strategy_id" e))
              then some strategy_changed
              else if value_eq (get "run_id" p) (get "run_id" e)
              then some run_id_repeated
              else if not (is_text (artifacts_hash h p) hash)
              then some artifacts_hash_differs
              else none
        ]
