-- ===== src/Gates/Evidence.antt =====
-- gates.py: the artifacts that a gate reads, and the independence of its reviewer.
use Prim.Native.String.{◌++◌ as text_append}
use the_pass.Prelude.{
  is_nil, String, not, ◌||◌, Option, none, some, List, [], ◌∷◌, ◌++◌, str_eq, is_blank, strip,
  if◌then◌else◌,
}
use the_pass.Prelude.Result.{Result, ok, raise, ◌>>=◌}
use the_pass.Json.{
  Value, null, text, Fields, get, dict, is_str, is_text, text_or_empty, as_object, object_at,
}
use the_pass.Ledger.Issues.{LedgerError}
use the_pass.Ledger.Package.{load, find_artifact}
use the_pass.Gates.GateWorld.{GateWorld, report_if, joined, names_of, typed_issues}
use the_pass.Gates.Attestation.{
  attestation_path, registry_snapshot_path, review_task_path, verify_reviewer_attestation,
}
use the_pass.Gates.Registry.{untrusted, verify_trusted_reviewer_registry}

-- The triple of `workflow_artifact`, the path by its name in the package.
pub record Found : Type 0 where
  pub name : Option String
  pub document : Option Fields
  pub issues : List String

unfoldable pub workflow_artifact : GateWorld → String → String → Result LedgerError Found
workflow_artifact w pkg artifact_type = elim (names_of w pkg artifact_type) [
  | [] ↦ ok (record {
    name = none;
    document = none;
    issues = joined "missing " artifact_type " artifact" ∷ [];
  })
  | name ∷ more ↦
      let path = w.host.within pkg name in
      if not (is_nil (w.issues path artifact_type))
      then ok
          (record { name = some name; document = none; issues = typed_issues w path artifact_type })
      else (load w.host path >>= λ v.
          ok (record { name = some name; document = as_object v; issues = [] }))
]

-- A row of a decision's evidence.
abbrev pub evidence_row : GateWorld → String → String → String → Fields
evidence_row w pkg artifact_type name = dict (
    ("type", text artifact_type)
    ∷ ("path", text name)
    ∷ ("sha256", text (w.host.sha256_file (w.host.within pkg name)))
    ∷ [])

-- The row of an artifact, where there is a path.
abbrev pub row_of : GateWorld → String → String → Option String → List Fields
row_of w pkg artifact_type none = []
row_of w pkg artifact_type (some name) = evidence_row w pkg artifact_type name ∷ []

-- `normalize_identity` at a text.
abbrev pub normalize_identity : GateWorld → String → String
normalize_identity w s = w.casefold (strip s)

-- The owner that an artifact names, stripped, where it is not blank.
unfoldable pub owner_of : GateWorld → String → String → Result LedgerError (Option String)
owner_of w pkg artifact_type = elim (find_artifact w.host pkg artifact_type) [
  | none ↦ ok none
  | some path ↦ load w.host path >>= λ v. elim (as_object v) [
    | none ↦ ok none
    | some d ↦
        let owner = get "owner" d in
        ok (
          if not (is_str owner) || is_blank (text_or_empty owner)
          then none
          else some (strip (text_or_empty owner)))
  ]
]

abbrev pub required : String → Option String → List String
required label none = text_append label " owner is required for independent review" ∷ []
required label (some o) = []

abbrev pub distinct : GateWorld → String → String → Option String → List String
distinct w reviewer label none = []
distinct w reviewer label (some o) =
    report_if (str_eq (normalize_identity w reviewer) (normalize_identity w o))
      (joined "reviewer must differ from " label " owner")

unfoldable pub reviewer_identity_blockers :
    GateWorld → String → String → Result LedgerError (List String)
unfolding owner_of
reviewer_identity_blockers w pkg reviewer = owner_of w pkg "strategy_spec" >>= λ spec.
    owner_of w pkg "run_receipt" >>= λ receipt. ok (
      required "StrategySpec" spec
      ++ (required "run receipt" receipt
          ++ (distinct w reviewer "StrategySpec" spec
              ++ distinct w reviewer "run receipt" receipt)))

-- What a review gives: the rows of its files, the trust in its key and the blockers.
pub record Review : Type 0 where
  pub rows : List Fields
  pub trust : Fields
  pub blockers : List String

abbrev task_hash : Option Fields → Value
task_hash none = null
task_hash (some d) = get "task_sha256" (object_at "evidence" d)

-- The review task has to be the one that was signed.
check_task : GateWorld → String → String → Option Fields → List String
check_task w pkg gate document = elim (review_task_path w pkg gate) [
  | raise t ↦ t ∷ []
  | ok path ↦
      report_if (not (is_text (w.host.sha256_file path) (task_hash document)))
        "reviewer attestation task evidence fingerprint does not match"
]

unfoldable pub gate_attestation_artifact :
    GateWorld → String → String → String → String → Result LedgerError Review
unfolding check_task
gate_attestation_artifact w pkg gate reviewer package_id =
    let attestation = joined "reviewer_attestation." gate ".json" in
    let registry = joined "reviewer_key_registry." gate ".json" in
    if not (w.host.is_file (attestation_path w pkg gate))
    then ok (record {
      rows = [];
      trust = untrusted;
      blockers = joined "missing reviewer_attestation." gate " artifact" ∷ [];
    })
    else (verify_reviewer_attestation w pkg gate package_id reviewer >>= λ signed.
        verify_trusted_reviewer_registry w pkg signed.0 >>= λ trusted. ok (record {
          rows =
              evidence_row w pkg "reviewer_attestation" attestation
              ∷ (if w.host.is_file (registry_snapshot_path w pkg gate)
                  then evidence_row w pkg "reviewer_key_registry" registry ∷ []
                  else []);
          trust = trusted.0;
          blockers = signed.1 ++ (trusted.1 ++ check_task w pkg gate signed.0);
        }))
