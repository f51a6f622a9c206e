-- ===== src/Ledger/Entries.antt =====
-- ledger.py: reading the entries of a ledger file and verifying their hash chain.
use the_pass.Prelude.{ℕ, ◌+◌, String, Bool, not, ◌&&◌, ◌||◌, List, [], ◌∷◌, ◌++◌, if◌then◌else◌}
use the_pass.Prelude.Result.{Result, ok, raise, ◌>>=◌}
use the_pass.Json.{
  Value, null, text, object, Fields, get, remove, is_text, is_str, is_int_from, value_eq,
}
use the_pass.Ledger.Host.{Host, Line, blank, invalid, parsed}
use the_pass.Ledger.Issues.{
  Fault, unsupported_schema, unsupported_entry_kind, bad_registration, previous_hash_differs,
  entry_hash_differs, Issue, entry, LedgerError, invalid_json, entry_not_object,
}

abbrev pub schema_v1 : String
schema_v1 = "the-pass/receipt-ledger-entry/v1"

abbrev pub schema_v2 : String
schema_v2 = "the-pass/receipt-ledger-entry/v2"

-- `entry.get("schema") == LEDGER_SCHEMA_V2`
abbrev pub is_v2 : Fields → Bool
is_v2 e = is_text schema_v2 (get "schema" e)

-- `entry.get("entry_kind") == kind`
abbrev pub is_kind : String → Fields → Bool
is_kind kind e = is_text kind (get "entry_kind" e)

unfoldable pub hash_entry : Host → Fields → String
hash_entry h e = h.sha256_text (h.canonical_json (object (remove "entry_hash" e)))

-- The loop of `read_ledger_entries`, from line number `n`.
unfoldable pub read_lines : ℕ → List Line → Result LedgerError (List Fields)
read_lines n [] = ok []
read_lines n (blank ∷ ls) = read_lines (n + 1) ls
read_lines n (invalid ∷ ls) = raise (invalid_json n)
read_lines n (parsed (object e) ∷ ls) = read_lines (n + 1) ls >>= λ es. ok (e ∷ es)
read_lines n (parsed v ∷ ls) = raise (entry_not_object n)

unfoldable pub read_ledger_entries : Host → String → Result LedgerError (List Fields)
read_ledger_entries h path = if h.exists path then read_lines 1 (h.lines path) else ok []

abbrev pub is_supported_schema : Fields → Bool
is_supported_schema e = is_text schema_v1 (get "schema" e) || is_text schema_v2 (get "schema" e)

abbrev pub is_supported_kind : Fields → Bool
is_supported_kind e =
    is_kind "run" e || is_kind "gate_decision" e || is_kind "robustness_registration" e

abbrev pub is_complete_registration : Fields → Bool
is_complete_registration e =
    is_str (get "events_fingerprint" e)
    && is_str (get "descriptor_fingerprint" e)
    && is_str (get "registration_fingerprint" e)
    && is_int_from 1 (get "attempt" e)
    && is_int_from 2 (get "variant_count" e)

-- One finding if the test passes.
abbrev pub report_if : Bool → ℕ → Fault → List Issue
report_if found i f = if found then entry i f ∷ [] else []

-- The checks of one entry that do not look at the others.
unfoldable pub shape_issues : ℕ → Fields → List Issue
shape_issues i e =
    report_if (not (is_supported_schema e)) i unsupported_schema
    ++ (report_if (is_v2 e && not (is_supported_kind e)) i unsupported_entry_kind
        ++ report_if
            (is_v2 e && is_kind "robustness_registration" e && not (is_complete_registration e)) i
            bad_registration)

-- `entry.get("entry_hash")` where it is a text, else `None`.
abbrev pub text_or_null : Value → Value
text_or_null (text t) = text t
text_or_null _ = null

-- The body of the loop of `verify_ledger_entries`, at index `i` under the hash of the entry before.
unfoldable pub entry_issues : Host → ℕ → Value → Fields → List Issue
entry_issues h i previous e =
    shape_issues i e
    ++ (report_if (not (value_eq (get "previous_hash" e) previous)) i previous_hash_differs
        ++ report_if (not (value_eq (get "entry_hash" e) (text (hash_entry h e)))) i
            entry_hash_differs)

unfoldable pub verify_entries_from : Host → ℕ → Value → List Fields → List Issue
verify_entries_from h i previous [] = []
verify_entries_from h i previous (e ∷ es) =
    entry_issues h i previous e
    ++ verify_entries_from h (i + 1) (text_or_null (get "entry_hash" e)) es

unfoldable pub verify_ledger_entries : Host → List Fields → List Issue
verify_ledger_entries h es = verify_entries_from h 0 null es
