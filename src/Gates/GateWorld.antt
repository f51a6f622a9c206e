-- ===== src/Gates/GateWorld.antt =====
-- What the gates call on beside the ledger's host, and the texts that they report.
use Prim.Native.String.{◌++◌ as text_append}
use the_pass.Prelude.{ℕ, String, Bool, Option, List, [], ◌∷◌, if◌then◌else◌, map}
use the_pass.Prelude.Result.{Result, ok, raise}
use the_pass.Json.{Value, ℤ}
use the_pass.Ledger.Host.{Host}
use the_pass.Ledger.Issues.{LedgerError}
use the_pass.Ledger.Package.{artifact_extensions}

-- What `datetime.fromisoformat` makes of a text: nothing, a time without a zone, or an instant.
pub data Instant : Type 0 where
  unparsed : Instant
  naive : Instant
  at : ℕ → Instant

pub record GateWorld : Type 0 where
  pub host : Host
  -- what `validate_artifact(path, artifact_type)` reports, as `path: message`, where its result is
  -- not `ok`; nothing where it is, since a result that is not has an error among its issues
  pub issues : String → String → List String
  -- the YAML of the gate policy, where it can be read, and the SHA-256 of its bytes
  pub policy : Option Value
  pub policy_hash : String
  pub casefold : String → String
  -- `parse_timestamp` of validators/common.py, in microseconds
  pub parse_timestamp : String → Option ℕ
  -- `math.floor` of a finite float, by its printed form
  pub floor : String → ℤ
  pub instant : String → Instant
  pub base64_decode : String → Option String
  pub base64_encode : String → String
  -- `Ed25519PublicKey.verify` by public key, signature and message
  pub verify_signature : String → String → String → Bool
  -- `json.dumps` with sorted keys and ASCII output, and `stable_fingerprint`
  pub ascii_json : Value → String
  pub stable_fingerprint : Value → String
  -- the trusted registry that is passed or set in the environment, its path where it exists, and
  -- the sorted files of a path
  pub trusted_registry : Option String
  pub resolve_strict : String → Option String
  pub registry_files : String → List String

-- `GateEvaluationError`, by its text, and the errors of the ledger's functions.
pub data GateError : Type 0 where
  refused : String → GateError
  ledger : LedgerError → GateError

abbrev pub of_ledger {ℓ} : {A : Type ℓ} → Result LedgerError A → Result GateError A
of_ledger (ok a) = ok a
of_ledger (raise e) = raise (ledger e)

-- One text if the test passes.
abbrev pub report_if : Bool → String → List String
report_if b t = if b then t ∷ [] else []

-- `f"{first}{second}{third}"`
abbrev pub joined : String → String → String → String
joined a b c = text_append a (text_append b c)

-- The names `stem.json`, `stem.yaml` and `stem.yml` that are files of the package.
unfoldable pub names_from : GateWorld → String → String → List String → List String
names_from w pkg stem [] = []
names_from w pkg stem (x ∷ xs) =
    let name = text_append stem x in
    let rest = names_from w pkg stem xs in
    if w.host.is_file (w.host.within pkg name) then name ∷ rest else rest

abbrev pub names_of : GateWorld → String → String → List String
names_of w pkg stem = names_from w pkg stem artifact_extensions

-- The issues of an artifact, each after its type.
abbrev pub typed_issues : GateWorld → String → String → List String
typed_issues w path artifact_type =
    map (λ i. joined artifact_type ":" i) (w.issues path artifact_type)
