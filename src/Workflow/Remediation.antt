-- ===== src/Workflow/Remediation.antt =====
-- orchestration.py: the evidence that remediation asks for.
use mathlib.Core.List.{reverse}
use the_pass.Prelude.{
  String, Bool, true, false, not, ◌&&◌, ◌||◌, Option, none, some, List, [], ◌∷◌, str_eq, is_nil,
  any_of, select, find_first, if◌then◌else◌,
}
use the_pass.Prelude.Result.{Result, ok, raise, ◌>>=◌, ◌>>◌, raise_if}
use the_pass.Json.{
  Value, text, object, Fields, get, is_text, is_true, text_or_empty, list_of, as_object, value_eq,
}
use the_pass.Ledger.Issues.{unreadable_document}
use the_pass.Ledger.Entries.{is_v2, is_kind, read_ledger_entries}
use the_pass.Ledger.Semantics.{is_run_at, verify_ledger_file}
use the_pass.Workflow.Errors.{
  WorkflowError, no_confirmed_finding, no_recorded_package, finding_outside_package, not_exact_run,
  no_failed_decision, finding_not_fingerprinted, reviewer_differs, finding_unbound,
  successor_required, successor_same, successor_unrecorded, ledger_invalid, ledger,
}
use the_pass.Workflow.State.{World, State}
use the_pass.Workflow.Evidence.{of_ledger}

-- A validated artifact with a confirmed blocking finding.
pub record Finding : Type 0 where
  pub path : String
  pub artifact_type : String
  pub document : Fields

abbrev is_confirmed : Value → Bool
is_confirmed (object f) = is_text "confirmed" (get "status" f) && is_true (get "blocks_promotion" f)
is_confirmed _ = false

-- `document.get("target_gate")` of findings, `document.get("target")` of an audit report.
abbrev target_of : String → Fields → Value
target_of artifact_type d =
    if str_eq artifact_type "findings" then get "target_gate" d else get "target" d

abbrev targets : Option String → Value → Bool
targets none v = true
targets (some gate) v = is_text gate v

abbrev pub has_confirmed : Fields → Bool
has_confirmed d = any_of is_confirmed (list_of (get "findings" d))

-- One round of the two loops of `_confirmed_finding_artifact`.
inspect : World → Option String → String → String → Result WorkflowError (Option Finding)
inspect w gate path artifact_type = elim (w.host.validate_artifact path artifact_type) [
  | false ↦ ok none
  | true ↦ elim (w.host.load_document path) [
    | none ↦ raise (ledger unreadable_document)
    | some v ↦ elim (as_object v) [
      | none ↦ ok none
      | some d ↦ ok (
          if targets gate (target_of artifact_type d) && has_confirmed d
          then some (record { path = path; artifact_type = artifact_type; document = d })
          else none)
    ]
  ]
]

unfoldable pub confirmed_finding_artifact :
    World → Option String → List String → Result WorkflowError Finding
unfolding inspect
confirmed_finding_artifact w gate [] = raise no_confirmed_finding
confirmed_finding_artifact w gate (value ∷ values) =
    inspect w gate (w.resolve value) "findings" >>= λ a. elim a [
      | some f ↦ ok f
      | none ↦ inspect w gate (w.resolve value) "audit_report" >>= λ b. elim b [
        | some f ↦ ok f
        | none ↦ confirmed_finding_artifact w gate values
      ]
    ]

-- A recorded decision that did not pass the gate for the package.
abbrev is_failed_decision : World → String → String → String → String → Fields → Bool
is_failed_decision w ledger_path id gate path e =
    is_v2 e
    && is_kind "gate_decision" e
    && is_text id (get "package_id" e)
    && is_text gate (get "gate" e)
    && (is_text "blocked" (get "gate_result" e) || is_text "revise" (get "gate_result" e))
    && str_eq (w.host.beside ledger_path (text_or_empty (get "package_path" e))) path

abbrev is_row_of : String → String → Value → Bool
is_row_of artifact_type path (object a) =
    is_text artifact_type (get "type" a) && is_text path (get "path" a)
is_row_of artifact_type path _ = false

-- `len(evidence) == 1 and evidence[0].get("sha256") == digest`
abbrev is_one_row : String → List Value → Bool
is_one_row digest (object a ∷ []) = is_text digest (get "sha256" a)
is_one_row digest _ = false

-- The finding names the package that it is about.
abbrev is_bound : String → Finding → Bool
is_bound id f =
    if str_eq f.artifact_type "findings"
    then is_text "." (get "package" f.document) || is_text id (get "package" f.document)
    else is_text id (get "package_id" f.document)

abbrev require_some {ℓ} : {A : Type ℓ} → Option A → WorkflowError → Result WorkflowError A
require_some none e = raise e
require_some (some a) e = ok a

-- The entries of a ledger that has to verify.
valid_entries : World → String → Result WorkflowError (List Fields)
valid_entries w path = do
  issues ← of_ledger (verify_ledger_file w.host path)
  raise_if (not (is_nil issues)) ledger_invalid
  of_ledger (read_ledger_entries w.host path)

unfoldable pub verify_target_remediation_entry :
    World → State → List String → Result WorkflowError (Unit {0})
unfolding valid_entries
verify_target_remediation_entry w s evidence_paths = do
  stored ← require_some s.package_path no_recorded_package
  id ← require_some s.package_id no_recorded_package
  let path = w.resolve stored
  finding ← confirmed_finding_artifact w (some s.target_gate) evidence_paths
  relative ← require_some (w.host.relative_to path finding.path) finding_outside_package
  let ledger_path = w.resolve s.ledger_path
  entries ← valid_entries w ledger_path
  raise_if (not (any_of (is_run_at w.host ledger_path (text id) path) entries)) not_exact_run
  decision ←
      require_some
        (find_first (is_failed_decision w ledger_path id s.target_gate path) (reverse entries))
        no_failed_decision
  let rows = select (is_row_of finding.artifact_type relative) (list_of (get "artifacts" decision))
  raise_if (not (is_one_row (w.host.sha256_file finding.path) rows)) finding_not_fingerprinted
  raise_if (not (value_eq (get "reviewer" finding.document) (get "reviewer" decision)))
      reviewer_differs
  raise_if (not (is_bound id finding)) finding_unbound

-- The successor package has to be recorded as a child of the current one.
unfoldable pub verify_remediation_progress :
    World → State → Option String → Option String → Result WorkflowError (Unit {0})
unfolding valid_entries
verify_remediation_progress w s package_path package_id = do
  stored ← require_some package_path successor_required
  id ← require_some package_id successor_required
  predecessor ← require_some s.package_id successor_same
  raise_if (str_eq id predecessor) successor_same
  let ledger_path = w.resolve s.ledger_path
  entries ← valid_entries w ledger_path
  successor ←
      require_some (find_first (is_run_at w.host ledger_path (text id) (w.resolve stored)) entries)
        successor_unrecorded
  raise_if (not (is_text predecessor (get "supersedes_package_id" successor))) successor_unrecorded
