-- ===== src/Ledger/Sample.antt =====
-- A host with one package and its ledger, to try ledger.py on.
use the_pass.Prelude.{
  String, true, false, none, some, List, [], ◌∷◌, map, mem_text, str_eq, ◌||◌, if◌then◌else◌,
}
use the_pass.Prelude.Result.{Result, ok, raise}
use the_pass.Json.{Value, null, text, array, object, Fields, nil, get, dict, items}
use the_pass.Ledger.Host.{Host, parsed}
use the_pass.Ledger.Issues.{LedgerError}
use the_pass.Ledger.Append.{
  LedgerAppendResult, append_ledger_entry, append_robustness_registration, append_gate_decision,
}

-- The canonical text of a hash; that of a text is marked.
abbrev pub show : Value → String
show null = "null"
show (text s) = String.◌∷◌ "t" s
show _ = "other"

-- The canonical text of the host's documents: their previous hash.
abbrev pub canonical : Value → String
canonical (object f) = show (get "previous_hash" f)
canonical _ = "value"

abbrev pub decision_path : String
decision_path = "gate_decision.research_gate.json"

abbrev pub decision : Value
decision = object (
    dict (
      ("id", text "decision_1")
      ∷ ("gate_id", text "research_gate")
      ∷ ("package_id", text "pkg_null")
      ∷ ("package_path", text ".")
      ∷ ("reviewer", text "rita")
      ∷ ("gate_result", text "pass")
      ∷ (
        "evidence",
        array (
            items (
              object (
                dict (
                  ("path", text "metrics_report.json")
                  ∷ ("sha256", text "metrics_report.json")
                  ∷ []))
              ∷ [])),
      )
      ∷ ("created_at", text "2026-07-10")
      ∷ []))

abbrev pub files : List String
files =
    decision_path ∷ "strategy_spec.json" ∷ "data_manifest.json" ∷ "run_receipt.json"
    ∷ "metrics_report.json" ∷ "cost_waterfall.json" ∷ "verdict_report.json" ∷ "findings.json" ∷ []

-- A host with one package at `p`; the ledger `old` does not exist, and `new` has the given entries.
abbrev pub host_with : List Fields → Host
host_with es = record {
  canonical_json = canonical;
  sha256_text = λ s. s;
  sha256_file = λ s. s;
  lines = λ l. map (λ e. parsed (object e)) es;
  ends_with_newline = λ l. true;
  exists = λ f. mem_text f files || str_eq f "new";
  is_file = λ f. mem_text f files;
  is_dir = λ d. str_eq d "p";
  beside = λ l r. r;
  within = λ d r. if str_eq r "." then "p" else r;
  relative_to = λ d f. some f;
  stem = λ f. "gate_decision.research_gate";
  parent = λ f. "p";
  relpath = λ d l. d;
  load_document = λ f.
      if str_eq f decision_path then some decision else some (object (dict (("id", text f) ∷ [])));
  validate_artifact = λ f t. true;
  validate_package = λ d l. true;
  package_evidence_paths = λ d. [];
  evaluate_gate = λ r. ok (elim decision [ object d ↦ some d | _ ↦ none ]);
  now = "2026-07-11";
}

-- The run of the package, and the decision that passes it, as the ledger holds them.
abbrev pub run_entry : Fields
run_entry = dict (
    ("schema", text "the-pass/receipt-ledger-entry/v2")
    ∷ ("entry_kind", text "run")
    ∷ ("recorded_at", text "2026-07-11")
    ∷ ("package_id", text "pkg_null")
    ∷ ("package_path", text "p")
    ∷ (
      "artifacts",
      array (
          items (
            object (
              dict (
                ("path", text "metrics_report.json") ∷ ("sha256", text "metrics_report.json") ∷ []))
            ∷ [])),
    )
    ∷ ("previous_hash", null)
    ∷ ("entry_hash", text "null")
    ∷ [])

abbrev pub gate_entry : Fields
gate_entry = dict (
    ("schema", text "the-pass/receipt-ledger-entry/v2")
    ∷ ("entry_kind", text "gate_decision")
    ∷ ("recorded_at", text "2026-07-11")
    ∷ ("decision_id", text "decision_1")
    ∷ ("package_id", text "pkg_null")
    ∷ ("package_path", text "p")
    ∷ ("gate", text "research_gate")
    ∷ ("gate_result", text "pass")
    ∷ (
      "artifacts",
      array (
          items (
            object (
              dict (
                ("type", text "gate_decision")
                ∷ ("path", text "gate_decision.research_gate.json")
                ∷ ("sha256", text "gate_decision.research_gate.json")
                ∷ []))
            ∷ [])),
    )
    ∷ ("previous_hash", text "null")
    ∷ ("entry_hash", text "tnull")
    ∷ [])

abbrev pub entries : List Fields
entries = run_entry ∷ gate_entry ∷ []

abbrev pub host : Host
host = host_with entries

abbrev pub result_of : Result LedgerError LedgerAppendResult → LedgerAppendResult
result_of (ok r) = r
result_of (raise e) = record { entry = nil; appended = false }

abbrev pub appended_run : LedgerAppendResult
appended_run = result_of (append_ledger_entry (host_with []) "old" "p" null)

abbrev pub appended_decision : LedgerAppendResult
appended_decision =
    result_of (append_gate_decision (host_with (run_entry ∷ [])) "new" decision_path)

abbrev pub registered : LedgerAppendResult
registered =
    result_of
      (append_robustness_registration host "new" "events" "descriptor" "registration" 3 null)
