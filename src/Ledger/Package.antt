-- ===== src/Ledger/Package.antt =====
-- ledger.py: the run entry that a package gives, with the summaries of its artifacts.
use Prim.Native.String.{◌++◌ as text_append}
use the_pass.Prelude.{
  String, not, ◌&&◌, ◌||◌, Option, none, some, List, [], ◌∷◌, str_eq, if◌then◌else◌,
}
use the_pass.Prelude.Result.{Result, ok, raise, ◌>>=◌}
use the_pass.Json.{
  Value, text, object, Fields, get, remove, insert, is_str, is_falsy, text_or_empty, list_of, dict,
  as_object,
}
use the_pass.Ledger.Host.{Host}
use the_pass.Ledger.Issues.{
  LedgerError, core_artifact_not_object, unreadable_document, path_outside_package,
}

abbrev pub artifact_extensions : List String
artifact_extensions = ".json" ∷ ".yaml" ∷ ".yml" ∷ []

abbrev pub package_core_artifacts : List String
package_core_artifacts =
    "strategy_spec" ∷ "data_manifest" ∷ "run_receipt" ∷ "metrics_report" ∷ "cost_waterfall"
    ∷ "verdict_report" ∷ []

abbrev pub package_optional_artifacts : List String
package_optional_artifacts = "adapter" ∷ "source_note" ∷ "findings" ∷ []

find_extension : Host → String → String → List String → Option String
find_extension h package_dir stem [] = none
find_extension h package_dir stem (x ∷ xs) =
    let candidate = h.within package_dir (text_append stem x) in
    if h.exists candidate then some candidate else find_extension h package_dir stem xs

-- `find_artifact`
unfoldable pub find_artifact : Host → String → String → Option String
unfolding find_extension
find_artifact h package_dir artifact_type =
    find_extension h package_dir artifact_type artifact_extensions

abbrev pub load : Host → String → Result LedgerError Value
load h path = elim (h.load_document path) [ none ↦ raise unreadable_document | some d ↦ ok d ]

abbrev pub load_object : Host → String → Result LedgerError Fields
load_object h path = load h path >>= λ d. elim (as_object d) [
  | none ↦ raise core_artifact_not_object
  | some m ↦ ok m
]

unfoldable pub package_relative_path : Host → String → String → Result LedgerError String
package_relative_path h package_dir path = elim (h.relative_to package_dir path) [
  | none ↦ raise path_outside_package
  | some p ↦ ok p
]

-- A risk or audit report is identified without the package id that it names.
unfoldable pub artifact_identity_sha256 : Host → String → String → Value → String
artifact_identity_sha256 h artifact_type path document = elim (as_object document) [
  | none ↦ h.sha256_file path
  | some m ↦
      if str_eq artifact_type "risk_report" || str_eq artifact_type "audit_report"
      then h.sha256_text (h.canonical_json (object (remove "package_id" m)))
      else h.sha256_file path
]

document_id : Value → Value
document_id (object m) = if is_str (get "id" m) then get "id" m else text ""
document_id _ = text ""

unfoldable pub artifact_summary : Host → String → String → String → Result LedgerError Fields
unfolding document_id
artifact_summary h package_dir artifact_type path = do
  document ← load h path
  relative ← package_relative_path h package_dir path
  let sha256 = h.sha256_file path
  let identity = artifact_identity_sha256 h artifact_type path document
  let summary = dict (
      ("type", text artifact_type)
      ∷ ("path", text relative)
      ∷ ("id", document_id document)
      ∷ ("sha256", text sha256)
      ∷ [])
  ok (if str_eq identity sha256 then summary else insert "identity_sha256" (text identity) summary)

unfoldable pub summarize : Host → String → List (String × String) → Result LedgerError (List Fields)
summarize h package_dir [] = ok []
summarize h package_dir ((artifact_type, path) ∷ r) =
    artifact_summary h package_dir artifact_type path >>= λ s.
    summarize h package_dir r >>= λ ss. ok (s ∷ ss)

note_paths : Host → String → List Value → List (String × String)
note_paths h package_dir [] = []
note_paths h package_dir (v ∷ r) =
    let candidate = h.within package_dir (text_or_empty v) in
    let rest = note_paths h package_dir r in
    if is_str v && not (is_falsy v)
    then elim (h.relative_to package_dir candidate) [
      | none ↦ rest
      | some _ ↦ if h.exists candidate then ("source_note", candidate) ∷ rest else rest
    ]
    else rest

-- `linked_source_notes`, each under its artifact type.
unfoldable pub linked_source_notes : Host → String → Fields → List (String × String)
unfolding note_paths
linked_source_notes h package_dir verdict = elim (as_object (get "evidence" verdict)) [
  | none ↦ []
  | some m ↦ note_paths h package_dir (list_of (get "source_notes" m))
]
