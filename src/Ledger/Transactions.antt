-- ===== src/Ledger/Transactions.antt =====
-- What each transaction of Append does to a ledger.
use the_pass.Prelude.{
  ◌++◌, ◌∷◌, ℕ, ◌+◌, String, true, false, Option, none, some, List, [], ◌≡◌, refl, arith,
  if◌then◌else◌, str_eq, ltb,
}
use the_pass.Prelude.Result.{ok, raise, Ensures, returns, raises, Ensures-bind, Ensures-of}
use the_pass.Json.{Value, null, Fields, get, text_or_empty}
use the_pass.Ledger.Host.{Host}
use the_pass.Ledger.Issues
use the_pass.Ledger.Issues.{LedgerError, Lineage}
use the_pass.Ledger.Entries.{read_ledger_entries, verify_ledger_entries}
use the_pass.Ledger.Chain.{IsShaped}
use the_pass.Ledger.Growth.{require_valid-chain, append_sealed-verified}
use the_pass.Ledger.Shape.{
  IsEntryOf, run-IsShaped, decision-IsShaped, seal-IsShaped, build_run_entry-kind,
  build_gate_ledger_entry-kind,
}
use the_pass.Ledger.Append.{
  registration_entry, LedgerAppendResult, record_run, append_ledger_entry, record_decision,
  append_gate_decision,
}

-- The entries with the one that is appended.
abbrev pub extended : List Fields → LedgerAppendResult → List Fields
extended es r = if r.appended then es ++ r.entry ∷ [] else es

-- The ledger after the call is a sound chain.
abbrev IsGrowth : Host → List Fields → LedgerAppendResult → Type 0
IsGrowth h es r = verify_ledger_entries h (extended es r) ≡ []

record_run-IsGrowth :
    (h : Host) (l d : String) (es : List Fields) (e : Fields) (issue : Option Lineage)
    (found : Option Fields)
    → verify_ledger_entries h es ≡ []
    → IsEntryOf "run" e
    → Ensures (IsGrowth h es) (record_run h l d es e issue found)
unfolding record_run
record_run-IsGrowth h l d es e (some x) found v k = raises
record_run-IsGrowth h l d es e none none v k =
    returns (append_sealed-verified h es e v (seal-IsShaped h es e (run-IsShaped e k)))
record_run-IsGrowth h l d es e none (some f) v k =
    elim (str_eq (h.beside l (text_or_empty (get "package_path" f))) d)
      as (λ b. Ensures (IsGrowth h es) (
        if b
        then ok (record { entry = f; appended = false })
        else raise Issues.recorded_elsewhere)) [ true ↦ returns v | false ↦ raises ]

-- `append_ledger_entry` keeps the hash chain of the ledger sound, whether it appends the run or finds it
-- recorded.
append_ledger_entry-verified :
    (h : Host) (ledger package_dir : String) (recorded_at : Value) (es : List Fields)
    {r : LedgerAppendResult}
    → read_ledger_entries h ledger ≡ ok es
    → append_ledger_entry h ledger package_dir recorded_at ≡ ok r
    → verify_ledger_entries h (extended es r) ≡ []
unfolding append_ledger_entry
append_ledger_entry-verified h l d at es read = Ensures-of (IsGrowth h es) _ (
    Ensures-bind _ _ λ es' e1. Ensures-bind _ _ λ _ e2. Ensures-bind _ _ λ e e3.
      let same : es' ≡ es = cc in
      rw same (
        record_run-IsGrowth h l d es e _ _ (require_valid-chain h l es read e2)
          (build_run_entry-kind h d at l e3)))

record_decision-IsGrowth :
    (h : Host) (es : List Fields) (e : Fields) (found : Option Fields)
    → verify_ledger_entries h es ≡ []
    → IsEntryOf "gate_decision" e
    → IsGrowth h es (record_decision h es e found)
unfolding record_decision
record_decision-IsGrowth h es e none v k =
    append_sealed-verified h es e v (seal-IsShaped h es e (decision-IsShaped e k))
record_decision-IsGrowth h es e (some f) v k = v

-- `append_gate_decision` keeps the hash chain of the ledger sound, whether it appends the decision or finds it
-- recorded.
append_gate_decision-verified :
    (h : Host) (ledger decision_path : String) (es : List Fields) {r : LedgerAppendResult}
    → read_ledger_entries h ledger ≡ ok es
    → append_gate_decision h ledger decision_path ≡ ok r
    → verify_ledger_entries h (extended es r) ≡ []
unfolding append_gate_decision
append_gate_decision-verified h l p es read = Ensures-of (IsGrowth h es) _ (
    Ensures-bind _ _ λ es' e1. Ensures-bind _ _ λ _ e2. Ensures-bind _ _ λ _ _.
      Ensures-bind _ _ λ _ _. Ensures-bind _ _ λ d _. Ensures-bind _ _ λ dir _.
        Ensures-bind _ _ λ run _. Ensures-bind _ _ λ _ _. Ensures-bind _ _ λ _ _.
          Ensures-bind _ _ λ _ _. Ensures-bind _ _ λ _ _. Ensures-bind _ _ λ e e3.
            let same : es' ≡ es = cc in
            rw same (
              returns (
                record_decision-IsGrowth h es e _ (require_valid-chain h l es read e2)
                  (build_gate_ledger_entry-kind h d p dir run l null e3))))

pub registration-IsShaped :
    (ev de re : String) (n earlier : ℕ) (at : Value)
    → ltb n 2 ≡ false
    → IsShaped (registration_entry ev de re n (earlier + 1) at)
registration-IsShaped ev de re n earlier at large = record {
  schema = refl;
  kind = λ _. refl;
  registration = λ _ _. ground arith;
}
