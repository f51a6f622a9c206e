-- ===== src/Ledger/Registered.antt =====
-- ledger.py: what `append_robustness_registration` makes of a ledger file.
use the_pass.Prelude.{◌+◌, String, true, ◌&&◌, List, [], ◌∷◌, ◌++◌, ◌≡◌, if◌then◌else◌, count_of}
use the_pass.Prelude.Result.{Result, ok}
use the_pass.Json.{integer, pos, text, Fields, get}
use the_pass.Ledger.Host.{Host}
use the_pass.Ledger.Issues
use the_pass.Ledger.Issues.{Fault}
use the_pass.Ledger.Entries.{is_v2, verify_ledger_entries}
use the_pass.Ledger.Artifacts.{verify_ledger_artifacts}
use the_pass.Ledger.Semantics.{is_registration_of, verify_ledger_semantics}
use the_pass.Ledger.Append.{LedgerAppendResult, entries_after}

-- The v2 entries, in order.
v2_of : List Fields → List Fields
v2_of [] = []
v2_of (e ∷ es) = if is_v2 e then e ∷ v2_of es else v2_of es

-- The file after a registration: the entry stands behind the others, and everything that
-- `verify_ledger_file` checks of the entries still holds.
pub record IsRegistered (h : Host) (ledger : String) (es : List Fields) (events descriptor : String)
    (r : LedgerAppendResult) : Type 0 where
  pub appended : r.appended ≡ true
  pub written : entries_after h ledger r ≡ ok (es ++ r.entry ∷ [])
  pub chained : verify_ledger_entries h (es ++ r.entry ∷ []) ≡ []
  pub artifacts : verify_ledger_artifacts h ledger (es ++ r.entry ∷ []) ≡ []
  pub replayed : verify_ledger_semantics h ledger (es ++ r.entry ∷ []) ≡ ok []
  pub attempt :
      get "attempt" r.entry
      ≡ integer (
          pos (
            count_of (λ e. is_v2 e && is_registration_of (text events) (text descriptor) e) es + 1))
