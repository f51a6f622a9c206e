-- ===== src/Gates/Judgement.antt =====
-- gates.py: the four branches of `evaluate_gate`, one for each gate.
use Prim.Native.String.{◌++◌ as text_append}
use the_pass.Prelude.{
  String, Bool, true, false, not, ◌||◌, none, some, List, [], ◌∷◌, ◌++◌, str_eq, is_nil,
  if◌then◌else◌,
}
use the_pass.Prelude.Result.{Result, ok, ◌>>=◌, ◌>>◌, raise_if}
use the_pass.Json.{text, Fields, get, get_or, is_text, text_or_empty, list_of, texts, object_at}
use the_pass.Ledger.Host.{Host, GateRequest}
use the_pass.Ledger.Issues.{LedgerError}
use the_pass.Ledger.Entries.{read_ledger_entries}
use the_pass.Ledger.Semantics.{verify_ledger_file}
use the_pass.Ledger.Append.{has_passed_gate}
use the_pass.Gates.GateWorld.{GateWorld, GateError, refused, of_ledger}
use the_pass.Gates.Evidence.{workflow_artifact}

-- What a branch leaves in `result`, `blockers` and `extra_evidence`.
pub record Outcome : Type 0 where
  pub result : String
  pub blockers : List String
  pub rows : List Fields

-- `"; ".join(texts)`
abbrev pub join : List String → String
join [] = ""
join (t ∷ []) = t
join (t ∷ ts) = text_append t (text_append "; " (join ts))

-- `if not blockers: result = "pass"`
abbrev pub pass_unless : List String → String
pass_unless blockers = if is_nil blockers then "pass" else "blocked"

-- `prior_gate_passes`: only a ledger without issues counts. `v` is the host that verifies it.
unfoldable pub prior_gate_passes :
    Host → String → String → String → String → Result LedgerError Bool
prior_gate_passes v ledger_path pkg package_id gate =
    if not (v.exists ledger_path)
    then ok false
    else (verify_ledger_file v ledger_path >>= λ issues.
        if not (is_nil issues)
        then ok false
        else (read_ledger_entries v ledger_path >>= λ es.
            ok (has_passed_gate v ledger_path es package_id gate pkg)))

-- The trusted entries where the caller passes them, and the ledger else.
unfoldable pub earlier_gate_passes : Host → GateRequest → String → String → Result LedgerError Bool
earlier_gate_passes v r package_id gate = elim (r.entries) [
  | some trusted ↦ ok (has_passed_gate v r.ledger_path trusted package_id gate r.package_dir)
  | none ↦ prior_gate_passes v r.ledger_path r.package_dir package_id gate
]

-- The result and the blockers by the verdict of the package.
unfoldable pub weigh_research : Fields → List String → String → Outcome
weigh_research run_entry blockers state =
    let open_blockers = texts (list_of (get "open_blockers" run_entry)) in
    if str_eq state "paper_candidate"
    then record { result = pass_unless blockers; blockers = blockers; rows = [] }
    else if str_eq state "kill" || str_eq state "revise" || str_eq state "blocked"
    then record {
      result = state;
      blockers =
          if is_nil (blockers ++ open_blockers)
          then text_append "package verdict is " state ∷ []
          else blockers ++ open_blockers;
      rows = [];
    }
    else record {
      result = "blocked";
      blockers = blockers ++ "package has no recognized research verdict" ∷ [];
      rows = [];
    }

-- The research gate, from the blockers of the review on.
unfoldable pub judge_research :
    GateWorld → GateRequest → Fields → Fields → List String → Result GateError Outcome
judge_research w r run_entry verdict blockers = do
  findings ← of_ledger (workflow_artifact w r.package_dir "findings")
  raise_if (not (is_nil findings.issues)) (refused (join findings.issues))
  raise_if
      (elim (findings.document) [
        | none ↦ true
        | some d ↦ not (is_text r.reviewer (get "reviewer" d))
      ])
      (refused "reviewer must match the package's independent findings reviewer")
  ok (weigh_research run_entry blockers (text_or_empty (get "verdict" verdict)))

-- The live gate is locked, for the reason that the policy gives.
abbrev pub judge_live : Fields → Outcome
judge_live policy = record {
  result = "blocked";
  blockers =
      text_or_empty (
        get_or "reason" (text "live gate is locked")
          (object_at "live_gate" (object_at "gates" policy)))
      ∷ [];
  rows = [];
}
