-- ===== src/Workflow/Evidence.antt =====
-- orchestration.py: what the ledger and the package directory have to show for a stage.
use Prim.Native.String.{◌++◌ as text_append}
use the_pass.Prelude.{
  String, Bool, true, false, not, ◌&&◌, ◌||◌, Option, none, some, List, [], ◌∷◌, str_eq, is_nil,
  any_of, all_of, mem_text, find_first, lookup, map, if◌then◌else◌,
}
use the_pass.Prelude.Result.{Result, ok, raise, ◌>>=◌, ◌>>◌, raise_if}
use the_pass.Json.{null, text, array, items, Fields, get, get_or, text_or_empty}
use the_pass.Ledger.Host.{Host}
use the_pass.Ledger.Issues.{LedgerError, is_ledger_error}
use the_pass.Ledger.Entries.{read_ledger_entries}
use the_pass.Ledger.Package.{artifact_extensions}
use the_pass.Ledger.RunEntry.{build_run_entry}
use the_pass.Ledger.Semantics.{is_run_at, verify_ledger_file}
use the_pass.Ledger.Append.{has_passed_gate}
use the_pass.Workflow.Errors.{
  WorkflowError, ledger_required, ledger_invalid, evidence_missing, package_required,
  package_invalid, fingerprint_failed, package_id_differs, run_required, artifacts_differ,
  artifact_ambiguous, artifact_unlisted, gate_required, ledger,
}
use the_pass.Workflow.State.{World, State}

-- `STAGE_PREREQUISITE_GATES`
abbrev pub stage_prerequisite_gates : List (String × List String)
stage_prerequisite_gates =
    ("paper_prepare", "research_gate" ∷ [])
    ∷ ("paper_observe", "research_gate" ∷ [])
    ∷ ("review_paper", "research_gate" ∷ [])
    ∷ ("paper_gate", "research_gate" ∷ [])
    ∷ ("risk_prepare", "research_gate" ∷ "paper_gate" ∷ [])
    ∷ ("plate", "research_gate" ∷ "paper_gate" ∷ [])
    ∷ ("review_risk", "research_gate" ∷ "paper_gate" ∷ [])
    ∷ ("risk_review", "research_gate" ∷ "paper_gate" ∷ [])
    ∷ []

-- `STAGES_REQUIRING_RECORDED_PACKAGE`
abbrev pub stages_requiring_recorded_package : List String
stages_requiring_recorded_package =
    "robustness" ∷ "review_research" ∷ "research_gate" ∷ map (λ r. r.0) stage_prerequisite_gates

-- `STAGE_REQUIRED_PACKAGE_EVIDENCE`
abbrev pub stage_required_package_evidence : List (String × List String)
stage_required_package_evidence =
    ("research_gate", "findings" ∷ [])
    ∷ ("paper_observe", "paper_plan" ∷ [])
    ∷ ("review_paper", "paper_plan" ∷ "observation_manifest" ∷ "divergence_report" ∷ [])
    ∷ (
      "paper_gate",
      "paper_plan" ∷ "observation_manifest" ∷ "divergence_report" ∷ "audit_report.paper_gate" ∷ [],
    )
    ∷ ("plate", "risk_policy" ∷ "risk_report" ∷ [])
    ∷ ("review_risk", "risk_policy" ∷ "risk_report" ∷ "approval_pack" ∷ "config_diff" ∷ [])
    ∷ (
      "risk_review",
      "risk_policy" ∷ "risk_report" ∷ "approval_pack" ∷ "config_diff" ∷ "audit_report.risk_review"
          ∷ [],
    )
    ∷ []

-- `table.get(stage, ())`
abbrev pub row_of : String → List (String × List String) → List String
row_of stage table = elim (lookup stage table) [ none ↦ [] | some r ↦ r ]

-- An error of the ledger's functions.
abbrev pub of_ledger {ℓ} : {A : Type ℓ} → Result LedgerError A → Result WorkflowError A
of_ledger (ok a) = ok a
of_ledger (raise e) = raise (ledger e)

abbrev pub requires_recorded_package : String → Bool
requires_recorded_package stage =
    mem_text stage stages_requiring_recorded_package || str_eq stage "complete"

-- `canonical_artifacts`
abbrev pub canonical_artifacts : Host → Fields → String
canonical_artifacts h e = h.canonical_json (get_or "artifacts" (array (items [])) e)

-- The files `stem.json`, `stem.yaml` and `stem.yml` that the package has.
matching_files : Host → String → String → List String → List String
matching_files h pkg stem [] = []
matching_files h pkg stem (x ∷ xs) =
    let file = h.within pkg (text_append stem x) in
    if h.is_file file then file ∷ matching_files h pkg stem xs else matching_files h pkg stem xs

-- Each required artifact stands there once, and is listed as evidence.
check_required : Host → String → List String → List String → Result WorkflowError (Unit {0})
unfolding matching_files
check_required h pkg evidence [] = ok tt
check_required h pkg evidence (stem ∷ stems) =
    elim (matching_files h pkg stem artifact_extensions) [
      | [] ↦ raise artifact_ambiguous
      | file ∷ more ↦
          raise_if (not (is_nil more)) artifact_ambiguous
          >> (raise_if (not (mem_text file evidence)) artifact_unlisted
              >> check_required h pkg evidence stems)
    ]

abbrev pub prerequisite_gates : State → List String
prerequisite_gates s =
    if str_eq s.stage "complete"
    then s.target_gate ∷ []
    else row_of s.stage stage_prerequisite_gates

-- The entries of a ledger that verifies, or of none.
unfoldable pub verified_entries : World → State → Result WorkflowError (List Fields)
verified_entries w s = elim (w.host.exists s.ledger_path) [
  | false ↦ ok []
  | true ↦ do
    issues ← of_ledger (verify_ledger_file w.host s.ledger_path)
    raise_if (not (is_nil issues)) ledger_invalid
    of_ledger (read_ledger_entries w.host s.ledger_path)
]

current_run : World → State → String → Result WorkflowError Fields
current_run w s pkg = elim (build_run_entry w.host pkg null s.ledger_path) [
  | ok e ↦ ok e
  | raise e ↦ if is_ledger_error e then raise fingerprint_failed else raise (ledger e)
]

-- The recorded run has to be there, if the stage asks for it, with the artifacts of today.
unfoldable pub check_recorded :
    Host → String → Fields → Option Fields → Result WorkflowError (Unit {0})
check_recorded h stage run none = raise_if (requires_recorded_package stage) run_required
check_recorded h stage run (some recorded) =
    raise_if (not (str_eq (canonical_artifacts h recorded) (canonical_artifacts h run)))
      artifacts_differ

-- The part of `verify_workflow_evidence` about the exact package.
unfoldable pub verify_package :
    World → State → List Fields → String → String → Result WorkflowError (Unit {0})
unfolding check_required current_run check_recorded
verify_package w s entries pkg id = do
  raise_if (not (w.host.validate_package pkg none)) package_invalid
  run ← current_run w s pkg
  raise_if (not (str_eq (text_or_empty (get "package_id" run)) id)) package_id_differs
  let path = w.resolve pkg
  check_recorded w.host s.stage run
      (find_first (is_run_at w.host s.ledger_path (text id) path) entries)
  check_required w.host pkg (map w.resolve s.evidence_paths)
      (row_of s.stage stage_required_package_evidence)
  raise_if
      (not (
        all_of (λ gate. has_passed_gate w.host s.ledger_path entries id gate path)
          (prerequisite_gates s)))
      gate_required

unfoldable pub verify_workflow_evidence : World → State → Result WorkflowError (Unit {0})
unfolding verified_entries
verify_workflow_evidence w s = do
  raise_if (requires_recorded_package s.stage && not (w.host.exists s.ledger_path)) ledger_required
  entries ← verified_entries w s
  raise_if (not (all_of (λ e. w.host.exists (w.resolve e)) s.evidence_paths)) evidence_missing
  elim s.package_path [
    | none ↦ raise_if (requires_recorded_package s.stage) package_required
    | some pkg ↦ verify_package w s entries pkg (elim s.package_id [ none ↦ "" | some id ↦ id ])
  ]

-- A valid ledger holds the exact run, and the passage of the target gate for it.
unfoldable pub passes_in : World → State → String → Result WorkflowError Bool
passes_in w s id = do
  entries ← of_ledger (read_ledger_entries w.host s.ledger_path)
  let path = w.resolve (elim s.package_path [ none ↦ "None" | some p ↦ p ])
  ok (
      any_of (is_run_at w.host s.ledger_path (text id) path) entries
      && has_passed_gate w.host s.ledger_path entries id s.target_gate path)

-- `workflow_target_passes`; an unreadable ledger raises.
unfoldable pub workflow_target_passes : World → State → Result WorkflowError Bool
workflow_target_passes w s = elim s.package_id [
  | none ↦ ok false
  | some id ↦ elim (w.host.exists s.ledger_path) [
    | false ↦ ok false
    | true ↦ do
      issues ← of_ledger (verify_ledger_file w.host s.ledger_path)
      elim (is_nil issues) [ false ↦ ok false | true ↦ passes_in w s id ]
  ]
]
