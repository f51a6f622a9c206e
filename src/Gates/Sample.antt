-- ===== src/Gates/Sample.antt =====
-- A package with its reviews, to try gates.py on.
use the_pass.Prelude.{
  String, true, none, some, List, [], ◌∷◌, keys, lookup, mem_text, str_eq, if◌then◌else◌,
}
use the_pass.Prelude.Result.{Result, ok, raise}
use the_pass.Json.{pos, null, text, object, Fields, nil, dict}
use the_pass.Ledger.Host.{Host, GateRequest}
use the_pass.Ledger.Issues.{LedgerError}
use the_pass.Ledger.RunEntry.{build_run_entry}
use the_pass.Ledger.Semantics.{build_gate_ledger_entry}
use the_pass.Gates.GateWorld.{GateWorld, GateError, at}
use the_pass.Gates.Evaluate.{GateEvaluation, evaluate_gate}
use the_pass.Gates.Documents.{signature, documents}
use the_pass.Gates.Canonical.{canonical}

abbrev pub host_with : List (String × Fields) → Host
host_with docs = record {
  canonical_json = canonical;
  sha256_text = λ s. "0123456789abcdef01234567";
  sha256_file = λ f. f;
  lines = λ l. [];
  ends_with_newline = λ l. true;
  exists = λ f. mem_text f (keys docs);
  is_file = λ f. mem_text f (keys docs);
  is_dir = λ d. str_eq d "p";
  beside = λ l r. r;
  within = λ d r. if str_eq r "." then "p" else r;
  relative_to = λ d f. if str_eq f "trusted.json" then none else some f;
  stem = λ f. f;
  parent = λ f. "p";
  relpath = λ d l. d;
  load_document = λ f. elim (lookup f docs) [ none ↦ none | some d ↦ some (object d) ];
  validate_artifact = λ f t. true;
  validate_package = λ d l. true;
  package_evidence_paths = λ d. [];
  evaluate_gate = λ r. ok none;
  now = "2026-07-11";
}

-- Signed at 5, with a key that is valid from 0 to 9, of a paper run of two days.
abbrev pub world_with : List (String × Fields) → GateWorld
world_with docs = record {
  host = host_with docs;
  issues = λ f t. [];
  policy = some (
      object (
        dict (
          ("policy_version", text "v1")
          ∷ (
            "gates",
            object (
                dict (
                  ("research_gate", object nil)
                  ∷ ("paper_gate", object nil)
                  ∷ ("risk_review", object nil)
                  ∷ ("live_gate", object nil)
                  ∷ [])),
          )
          ∷ [])));
  policy_hash = "fedcba9876543210";
  casefold = λ s. s;
  parse_timestamp = λ s. some (if str_eq s "start" then 0 else 172800000000);
  floor = λ s. pos 0;
  instant = λ s. at (if str_eq s "first" then 0 else if str_eq s "then" then 5 else 9);
  base64_decode = λ s. some s;
  base64_encode = λ s. s;
  verify_signature = λ k s m. str_eq s signature;
  ascii_json = λ v. "document";
  stable_fingerprint = λ v. "fingerprint";
  trusted_registry = some "trusted.json";
  resolve_strict = λ p. some p;
  registry_files = λ p. p ∷ [];
}

abbrev pub package_world : GateWorld
package_world = world_with documents

abbrev pub request : String → List Fields → GateRequest
request gate entries = record {
  package_dir = "p";
  gate = gate;
  reviewer = "rita";
  ledger_path = "ledger";
  entries = some entries;
}

abbrev pub evaluation_of : Result GateError GateEvaluation → GateEvaluation
evaluation_of (ok e) = e
evaluation_of (raise x) = record { decision = nil; exit_code = 9 }

abbrev pub fields_of : Result LedgerError Fields → Fields
fields_of (ok f) = f
fields_of (raise x) = nil

-- The run of the package, and the decisions and their entries in the order of the gates.
abbrev pub run_entry : Fields
run_entry = fields_of (build_run_entry package_world.host "p" null "ledger")

abbrev pub evaluated : String → List Fields → GateEvaluation
evaluated gate entries =
    evaluation_of (evaluate_gate package_world package_world.host (request gate entries))

abbrev recorded : GateWorld → Fields → String → Fields
recorded w decision path =
    fields_of (build_gate_ledger_entry w.host decision path "p" run_entry "ledger" null)

abbrev pub research_evaluation : GateEvaluation
research_evaluation = evaluated "research_gate" (run_entry ∷ [])

abbrev pub research_world : GateWorld
research_world = world_with (("decision_1.json", research_evaluation.decision) ∷ documents)

abbrev pub research_entry : Fields
research_entry = recorded research_world research_evaluation.decision "decision_1.json"

abbrev pub paper_evaluation : GateEvaluation
paper_evaluation = evaluated "paper_gate" (run_entry ∷ research_entry ∷ [])

abbrev pub world : GateWorld
world = world_with (
    ("decision_1.json", research_evaluation.decision)
    ∷ ("decision_2.json", paper_evaluation.decision)
    ∷ documents)

abbrev pub paper_entry : Fields
paper_entry = recorded world paper_evaluation.decision "decision_2.json"

abbrev pub risk_evaluation : GateEvaluation
risk_evaluation = evaluated "risk_review" (run_entry ∷ research_entry ∷ paper_entry ∷ [])
