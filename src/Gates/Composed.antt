-- ===== src/Gates/Composed.antt =====
-- How ledger.py and gates.py call each other: the ledger reproduces a decision by `evaluate_gate`,
-- which verifies the ledger for the decisions before it.
use the_pass.Prelude.{Option, none, some}
use the_pass.Prelude.Result.{Result, ok, raise}
use the_pass.Json.{Fields}
use the_pass.Ledger.Host.{Host}
use the_pass.Ledger.Issues.{LedgerError}
use the_pass.Gates.GateWorld.{GateWorld, GateError, refused, ledger}
use the_pass.Gates.Evaluate.{GateEvaluation, evaluate_gate}

-- The decision; the callers catch a `GateEvaluationError` alone.
abbrev pub caught : Result GateError GateEvaluation → Result LedgerError (Option Fields)
caught (ok e) = ok (some e.decision)
caught (raise (refused t)) = ok none
caught (raise (ledger x)) = raise x

-- The host of a replay, which always passes the trusted entries: no ledger is verified below it.
abbrev pub host_for_replay : GateWorld → Host
host_for_replay w = record w.host { evaluate_gate = λ r. caught (evaluate_gate w w.host r) }

abbrev pub host_of : GateWorld → Host
host_of w = record w.host { evaluate_gate = λ r. caught (evaluate_gate w (host_for_replay w) r) }
