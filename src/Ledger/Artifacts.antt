-- ===== src/Ledger/Artifacts.antt =====
-- ledger.py: the artifacts that the entries refer to still exist and match their hashes.
use the_pass.Prelude.{ℕ, ◌+◌, String, not, Option, none, some, List, [], ◌∷◌, ◌++◌, if◌then◌else◌}
use the_pass.Json.{
  Value, array, object, Items, end, item, Fields, get, is_text, is_filled_text, text_or_empty,
}
use the_pass.Ledger.Host.{Host}
use the_pass.Ledger.Issues.{
  Fault, package_path_empty, package_directory_missing, artifacts_empty, artifact_not_object,
  artifact_path_empty, artifact_escapes, artifact_missing, artifact_hash_differs, Issue, entry,
}
use the_pass.Ledger.Entries.{is_kind}

-- A file inside the package that has to exist with the recorded hash.
unfoldable pub candidate_fault : Host → String → ℕ → String → Value → Option Fault
candidate_fault h package_dir j candidate expected_hash =
    elim (h.relative_to package_dir candidate) [
      | none ↦ some (artifact_escapes j)
      | some _ ↦
          if not (h.is_file candidate)
          then some (artifact_missing j)
          else if is_text (h.sha256_file candidate) expected_hash
          then none
          else some (artifact_hash_differs j)
    ]

-- The body of the loop over an entry's artifacts, at index `j`.
unfoldable pub artifact_fault : Host → String → ℕ → Value → Option Fault
artifact_fault h package_dir j (object a) =
    if is_filled_text (get "path" a)
    then candidate_fault h package_dir j (h.within package_dir (text_or_empty (get "path" a)))
        (get "sha256" a)
    else some (artifact_path_empty j)
artifact_fault h package_dir j _ = some (artifact_not_object j)

abbrev pub report : ℕ → Option Fault → List Issue
report i none = []
report i (some f) = entry i f ∷ []

unfoldable pub artifacts_issues : Host → String → ℕ → ℕ → Items → List Issue
artifacts_issues h package_dir i j end = []
artifacts_issues h package_dir i j (item a r) =
    report i (artifact_fault h package_dir j a) ++ artifacts_issues h package_dir i (j + 1) r

-- `not isinstance(artifacts, list) or not artifacts`, else the loop.
unfoldable pub artifact_list_issues : Host → String → ℕ → Value → List Issue
artifact_list_issues h package_dir i (array (item a r)) =
    artifacts_issues h package_dir i 0 (item a r)
artifact_list_issues h package_dir i _ = entry i artifacts_empty ∷ []

-- The body of the loop of `verify_ledger_artifacts`, at index `i`.
unfoldable pub entry_artifact_issues : Host → String → ℕ → Fields → List Issue
entry_artifact_issues h ledger i e =
    let package_dir = h.beside ledger (text_or_empty (get "package_path" e)) in
    if is_kind "robustness_registration" e
    then []
    else if not (is_filled_text (get "package_path" e))
    then entry i package_path_empty ∷ []
    else if not (h.is_dir package_dir)
    then entry i package_directory_missing ∷ []
    else artifact_list_issues h package_dir i (get "artifacts" e)

unfoldable pub verify_artifacts_from : Host → String → ℕ → List Fields → List Issue
verify_artifacts_from h ledger i [] = []
verify_artifacts_from h ledger i (e ∷ es) =
    entry_artifact_issues h ledger i e ++ verify_artifacts_from h ledger (i + 1) es

unfoldable pub verify_ledger_artifacts : Host → String → List Fields → List Issue
verify_ledger_artifacts h ledger es = verify_artifacts_from h ledger 0 es
