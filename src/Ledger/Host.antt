-- ===== src/Ledger/Host.antt =====
-- What the receipt ledger calls on: the file system, `hashlib` and `json`, and the package
-- validators and the gate evaluator of the sibling modules.
use the_pass.Prelude.{String, Bool, Option, List}
use the_pass.Prelude.Result.{Result}
use the_pass.Json.{Value, Fields}
use the_pass.Ledger.Issues.{LedgerError}

-- A line of the ledger file: blank, not JSON, or a JSON value.
pub data Line : Type 0 where
  blank : Line
  invalid : Line
  parsed : Value → Line

-- The arguments of `evaluate_gate`.
pub record GateRequest : Type 0 where
  pub package_dir : String
  pub gate : String
  pub reviewer : String
  pub ledger_path : String
  -- `trusted_entries`, where the caller passes them
  pub entries : Option (List Fields)

-- Paths are resolved texts. A document that cannot be loaded is `none`.
pub record Host : Type 0 where
  -- `canonical_json` and `sha256_text` of `_infra.py`
  pub canonical_json : Value → String
  pub sha256_text : String → String
  pub sha256_file : String → String
  -- the lines of a ledger file, each stripped and parsed
  pub lines : String → List Line
  -- whether the file is missing, is empty or ends with a newline
  pub ends_with_newline : String → Bool
  pub exists : String → Bool
  pub is_file : String → Bool
  pub is_dir : String → Bool
  -- `(ledger_path.parent / relative).resolve()`
  pub beside : String → String → String
  -- `(directory / relative).resolve()`
  pub within : String → String → String
  -- `path.relative_to(directory)`, where it does not raise
  pub relative_to : String → String → Option String
  -- `path.stem` and `path.parent`
  pub stem : String → String
  pub parent : String → String
  -- `os.path.relpath(path, ledger_path.parent)`
  pub relpath : String → String → String
  pub load_document : String → Option Value
  -- `validate_artifact(path, artifact_type).ok` and `validate_package(path,
  -- ledger_path).ok`, where the caller may leave the ledger out
  pub validate_artifact : String → String → Bool
  pub validate_package : String → Option String → Bool
  pub package_evidence_paths : String → List (String × String)
  -- `evaluate_gate(…).decision`; `none` is a `GateEvaluationError`
  pub evaluate_gate : GateRequest → Result LedgerError (Option Fields)
  pub now : String
