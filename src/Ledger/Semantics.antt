-- ===== src/Ledger/Semantics.antt =====
-- ledger.py: replaying the entries of a ledger in order, each against those trusted before it.
use the_pass.Prelude.{
  ℕ, ◌+◌, String, Bool, true, false, not, ◌&&◌, Option, none, some, List, [], ◌∷◌, ◌++◌, is_nil,
  count_of, any_of, select, str_eq, if◌then◌else◌,
}
use the_pass.Prelude.Result.{Result, ok, raise, ◌>>=◌}
use the_pass.Json.{
  Value, null, text, array, object, Fields, get, remove, insert, is_text, text_or_empty, list_of,
  dict, items, as_object, value_eq, equals_int,
}
use the_pass.Ledger.Host.{Host}
use the_pass.Ledger.Issues
use the_pass.Ledger.Issues.{
  Fault, Issue, ledger_missing, entry, LedgerError, unreadable_document, is_ledger_error,
}
use the_pass.Ledger.Entries.{schema_v2, is_v2, is_kind, read_ledger_entries, verify_ledger_entries}
use the_pass.Ledger.Artifacts.{verify_ledger_artifacts}
use the_pass.Ledger.Package.{load, artifact_summary}
use the_pass.Ledger.RunEntry.{build_run_entry, or_now, run_lineage_issue}

-- A v2 run of the package id of `e`.
abbrev pub is_run_of : Value → Fields → Bool
is_run_of package_id e = is_v2 e && is_kind "run" e && value_eq (get "package_id" e) package_id

-- The same, recorded at a package directory.
abbrev pub is_run_at : Host → String → Value → String → Fields → Bool
is_run_at h ledger package_id package_dir e =
    is_run_of package_id e
    && str_eq (h.beside ledger (text_or_empty (get "package_path" e))) package_dir

abbrev pub is_registration_of : Value → Value → Fields → Bool
is_registration_of events descriptor e =
    is_kind "robustness_registration" e
    && value_eq (get "events_fingerprint" e) events
    && value_eq (get "descriptor_fingerprint" e) descriptor

-- Each judgement is the finding, `none` where the entry becomes trusted, or what is raised.
unfoldable pub judge_registration : List Fields → Fields → Option Fault
judge_registration trusted e =
    let earlier =
      count_of (is_registration_of (get "events_fingerprint" e) (get "descriptor_fingerprint" e))
        trusted in
    if equals_int (1 + earlier) (get "attempt" e) then none else some Issues.attempt_not_cumulative

unfoldable pub judge_run : Host → String → List Fields → Fields → Result LedgerError (Option Fault)
judge_run h ledger trusted e =
    elim (build_run_entry h (h.beside ledger (text_or_empty (get "package_path" e)))
      (get "recorded_at" e) ledger) [
        | raise x ↦ if is_ledger_error x then ok (some Issues.run_not_reproduced) else raise x
        | ok built ↦
            let expected = insert "previous_hash" (get "previous_hash" e) built in
            let observed = remove "entry_hash" e in
            if not
              (str_eq (h.canonical_json (object expected)) (h.canonical_json (object observed)))
            then ok (some Issues.run_differs)
            else elim (run_lineage_issue h expected trusted) [
              | some l ↦ ok (some (Issues.bad_lineage l))
              | none ↦
                  if any_of (is_run_of (get "package_id" e)) trusted
                  then ok (some Issues.duplicate_package_id)
                  else ok none
            ]
      ]

-- `build_gate_ledger_entry`
unfoldable pub build_gate_ledger_entry :
    Host → Fields → String → String → Fields → String → Value → Result LedgerError Fields
build_gate_ledger_entry h decision decision_path package_dir run_entry ledger recorded_at = do
  summary ← artifact_summary h package_dir "gate_decision" decision_path
  ok (
      dict (
        ("schema", text schema_v2)
        ∷ ("entry_kind", text "gate_decision")
        ∷ ("recorded_at", or_now h recorded_at)
        ∷ ("decision_id", get "id" decision)
        ∷ ("package_id", get "package_id" decision)
        ∷ ("package_path", text (h.relpath package_dir ledger))
        ∷ ("strategy_id", get "strategy_id" run_entry)
        ∷ ("run_id", get "run_id" run_entry)
        ∷ ("gate", get "gate_id" decision)
        ∷ ("gate_result", get "gate_result" decision)
        ∷ ("policy_version", get "policy_version" decision)
        ∷ ("policy_hash", get "policy_hash" decision)
        ∷ ("reviewer", get "reviewer" decision)
        ∷ ("verdict", get "verdict" run_entry)
        ∷ ("artifacts", array (items (list_of (get "evidence" decision) ++ object summary ∷ [])))
        ∷ ("open_blockers", get "blockers" decision)
        ∷ ("next_action", get "summary" decision)
        ∷ ("safety", get "safety" decision)
        ∷ ("previous_hash", null)
        ∷ []))

abbrev is_decision_artifact : Value → Bool
is_decision_artifact (object a) = is_text "gate_decision" (get "type" a)
is_decision_artifact _ = false

-- The one gate_decision artifact of an entry.
unfoldable pub decision_artifact : Fields → Option Fields
decision_artifact e = elim (select is_decision_artifact (list_of (get "artifacts" e))) [
  | [] ↦ none
  | a ∷ r ↦ if is_nil r then as_object a else none
]

-- The decision as the evaluator reproduces it from the trusted entries, with its own date.
abbrev pub reproduced_decision :
    Host → String → String → List Fields → Fields → Result LedgerError (Option Fields)
reproduced_decision h ledger package_dir trusted decision =
    h.evaluate_gate (record {
      package_dir = package_dir;
      gate = text_or_empty (get "gate_id" decision);
      reviewer = text_or_empty (get "reviewer" decision);
      ledger_path = ledger;
      entries = some trusted;
    })
    >>= λ o.
        ok (elim o [
          | none ↦ none
          | some d ↦ some (insert "created_at" (get "created_at" decision) d)
        ])

-- The entry that the decision and the package give, against the one in the ledger.
unfoldable pub compare_gate_entry :
    Host → String → String → String → Fields → Fields → Result LedgerError (Option Fault)
compare_gate_entry h ledger package_dir decision_path decision e = do
  run_entry ← build_run_entry h package_dir null ledger
  built ←
      build_gate_ledger_entry h decision decision_path package_dir run_entry ledger
        (get "recorded_at" e)
  let expected = insert "previous_hash" (get "previous_hash" e) built
  ok (
      if str_eq (h.canonical_json (object expected))
        (h.canonical_json (object (remove "entry_hash" e)))
      then none
      else some Issues.gate_entry_differs)

unfoldable pub judge_decision :
    Host
    → String
    → String
    → String
    → List Fields
    → Fields
    → Fields
    → Result LedgerError (Option Fault)
judge_decision h ledger package_dir decision_path trusted decision e =
    reproduced_decision h ledger package_dir trusted decision >>= λ o. elim o [
      | none ↦ ok (some Issues.Fault.decision_not_reproduced)
      | some expected ↦
          if str_eq (h.canonical_json (object expected)) (h.canonical_json (object decision))
          then compare_gate_entry h ledger package_dir decision_path decision e
          else ok (some Issues.Fault.decision_differs)
    ]

unfoldable pub judge_gate : Host → String → List Fields → Fields → Result LedgerError (Option Fault)
unfolding decision_artifact compare_gate_entry judge_decision
judge_gate h ledger trusted e =
    let package_dir = h.beside ledger (text_or_empty (get "package_path" e)) in
    elim (decision_artifact e) [
      | none ↦ ok (some Issues.decision_count)
      | some a ↦
          if not (any_of (is_run_at h ledger (get "package_id" e) package_dir) trusted)
          then ok (some Issues.Fault.run_not_recorded)
          else let decision_path = h.within package_dir (text_or_empty (get "path" a)) in
            load h decision_path >>= λ d. elim (as_object d) [
              | none ↦ ok (some Issues.Fault.decision_not_object)
              | some decision ↦ judge_decision h ledger package_dir decision_path trusted decision e
            ]
    ]

unfoldable pub judge : Host → String → List Fields → Fields → Result LedgerError (Option Fault)
judge h ledger trusted e =
    if is_kind "robustness_registration" e
    then ok (judge_registration trusted e)
    else if is_kind "run" e
    then judge_run h ledger trusted e
    else judge_gate h ledger trusted e

-- The loop of `verify_ledger_semantics`, at index `i`. Entries of the first schema are passed over.
unfoldable pub verify_semantics_from :
    Host → String → ℕ → List Fields → List Fields → Result LedgerError (List Issue)
verify_semantics_from h ledger i trusted [] = ok []
verify_semantics_from h ledger i trusted (e ∷ es) = elim (is_v2 e) [
  | false ↦ verify_semantics_from h ledger (i + 1) trusted es
  | true ↦ elim (judge h ledger trusted e) [
    | raise x ↦ raise x
    | ok none ↦ verify_semantics_from h ledger (i + 1) (trusted ++ e ∷ []) es
    | ok (some f) ↦
        verify_semantics_from h ledger (i + 1) trusted es >>= λ issues. ok (entry i f ∷ issues)
  ]
]

unfoldable pub verify_ledger_semantics :
    Host → String → List Fields → Result LedgerError (List Issue)
verify_ledger_semantics h ledger es = verify_semantics_from h ledger 0 [] es

unfoldable pub verify_ledger_file : Host → String → Result LedgerError (List Issue)
verify_ledger_file h ledger =
    if not (h.exists ledger)
    then ok (ledger_missing ∷ [])
    else (read_ledger_entries h ledger >>= λ es.
        let structural = verify_ledger_entries h es ++ verify_ledger_artifacts h ledger es in
        if not (is_nil structural) then ok structural else verify_ledger_semantics h ledger es)
