-- ===== src/Ledger/Append.antt =====
-- ledger.py: the transactions that append an entry, each under the ledger's lock.
use Prim.Native.String.{◌++◌ as text_append}
use the_pass.Prelude.{
  ℕ, ◌+◌, String, Bool, true, false, not, ◌&&◌, Option, none, some, List, [], ◌∷◌, ◌++◌, is_nil,
  count_of, any_of, find_first, mem_text, str_eq, ltb, if◌then◌else◌,
}
use the_pass.Prelude.Result.{Result, ok, raise, ◌>>=◌, ◌>>◌, raise_if}
use the_pass.Json.{
  Value, null, text, integer, pos, array, object, Items, end, item, Fields, get, insert, is_text,
  is_filled_text, text_or_empty, dict, as_object, value_eq,
}
use the_pass.Ledger.Host.{Host, Line, blank, invalid, parsed}
use the_pass.Ledger.Issues
use the_pass.Ledger.Issues.{LedgerError, Lineage}
use the_pass.Ledger.Entries.{schema_v2, is_v2, is_kind, hash_entry, read_lines, read_ledger_entries}
use the_pass.Ledger.Head.{head_hash}
use the_pass.Ledger.Package.{artifact_extensions, load}
use the_pass.Ledger.RunEntry.{build_run_entry, run_lineage_issue, or_now}
use the_pass.Ledger.Semantics.{
  is_run_of, is_run_at, is_registration_of, build_gate_ledger_entry, verify_ledger_file,
}

-- `LedgerAppendResult` without its message, which the flag determines.
pub record LedgerAppendResult : Type 0 where
  pub entry : Fields
  pub appended : Bool

-- `entry["previous_hash"] = …` and `entry["entry_hash"] = hash_entry(entry)`.
unfoldable pub seal : Host → List Fields → Fields → Fields
seal h entries e =
    let linked = insert "previous_hash" (head_hash entries) e in
    insert "entry_hash" (text (hash_entry h linked)) linked

-- A payload behind a last line without a newline: that line reads as the payload if it is blank,
-- and is no JSON otherwise.
unfoldable pub join_last : Line → List Line → List Line
join_last l [] = l ∷ []
join_last l (x ∷ y ∷ ls) = x ∷ join_last l (y ∷ ls)
join_last l (blank ∷ []) = l ∷ []
join_last l (x ∷ []) = invalid ∷ []

-- `append_locked_entry` writes the payload and a newline at the end of the file, whether the file
-- ends with a newline or not. The payload is read back as the entry.
unfoldable pub append_locked_entry : Host → String → Fields → List Line
unfolding join_last
append_locked_entry h ledger e =
    let old = if h.exists ledger then h.lines ledger else [] in
    if h.ends_with_newline ledger
    then old ++ parsed (object e) ∷ []
    else join_last (parsed (object e)) old

-- What `read_ledger_entries` gives after the call.
unfoldable pub entries_after : Host → String → LedgerAppendResult → Result LedgerError (List Fields)
entries_after h ledger r =
    if r.appended
    then read_lines 1 (append_locked_entry h ledger r.entry)
    else read_ledger_entries h ledger

-- `verify_ledger_file(ledger_path) if ledger_path.exists() else []`, and the refusal.
unfoldable pub require_valid : Host → String → Result LedgerError (Unit {0})
require_valid h ledger = elim (h.exists ledger) [
  | false ↦ ok tt
  | true ↦ verify_ledger_file h ledger >>= λ issues.
      raise_if (not (is_nil issues)) (Issues.invalid_ledger issues)
]

abbrev pub append_sealed : Host → List Fields → Fields → LedgerAppendResult
append_sealed h entries e = record { entry = seal h entries e; appended = true }

-- The end of `append_ledger_entry`, by the lineage finding and the recorded run of the package id.
unfoldable pub record_run :
    Host
    → String
    → String
    → List Fields
    → Fields
    → Option Lineage
    → Option Fields
    → Result LedgerError LedgerAppendResult
record_run h ledger package_dir entries e (some l) found = raise (Issues.invalid_lineage l)
record_run h ledger package_dir entries e none none = ok (append_sealed h entries e)
record_run h ledger package_dir entries e none (some existing) =
    if str_eq (h.beside ledger (text_or_empty (get "package_path" existing))) package_dir
    then ok (record { entry = existing; appended = false })
    else raise Issues.recorded_elsewhere

unfoldable pub append_ledger_entry :
    Host → String → String → Value → Result LedgerError LedgerAppendResult
append_ledger_entry h ledger package_dir recorded_at = do
  entries ← read_ledger_entries h ledger
  require_valid h ledger
  e ← build_run_entry h package_dir recorded_at ledger
  record_run h ledger package_dir entries e (run_lineage_issue h e entries)
      (find_first (is_run_of (get "package_id" e)) entries)

-- The registration entry before it is sealed.
abbrev pub registration_entry : String → String → String → ℕ → ℕ → Value → Fields
registration_entry events descriptor registration variant_count attempt recorded_at = dict (
    ("schema", text schema_v2)
    ∷ ("entry_kind", text "robustness_registration")
    ∷ ("recorded_at", recorded_at)
    ∷ ("events_fingerprint", text events)
    ∷ ("descriptor_fingerprint", text descriptor)
    ∷ ("registration_fingerprint", text registration)
    ∷ ("variant_count", integer (pos variant_count))
    ∷ ("attempt", integer (pos attempt))
    ∷ ("previous_hash", null)
    ∷ [])

unfoldable pub append_robustness_registration :
    Host → String → String → String → String → ℕ → Value → Result LedgerError LedgerAppendResult
append_robustness_registration h ledger events descriptor registration variant_count recorded_at =
    do
      raise_if (ltb variant_count 2) Issues.too_few_variants
      entries ← read_ledger_entries h ledger
      require_valid h ledger
      let matches =
          count_of (λ e. is_v2 e && is_registration_of (text events) (text descriptor) e) entries
      ok (
          append_sealed h entries (
            registration_entry events descriptor registration variant_count (matches + 1)
              (or_now h recorded_at)))

abbrev pub core_gates : List String
core_gates = "research_gate" ∷ "paper_gate" ∷ "risk_review" ∷ "live_gate" ∷ []

-- The decision files of one gate, with each extension, that stand in a directory.
sibling_decisions : Host → String → String → List String → List String
sibling_decisions h directory stem [] = []
sibling_decisions h directory stem (x ∷ xs) =
    let candidate = h.within directory (text_append stem x) in
    if h.is_file candidate
    then candidate ∷ sibling_decisions h directory stem xs
    else sibling_decisions h directory stem xs

-- `paths == [path]`
is_only : String → List String → Bool
is_only path (p ∷ []) = str_eq p path
is_only path _ = false

-- The checks on the decision's file and text, up to its package directory.
decision_package : Host → String → Fields → Result LedgerError String
unfolding sibling_decisions is_only
decision_package h decision_path decision = do
  let gate = text_or_empty (get "gate_id" decision)
  let stem = text_append "gate_decision." gate
  raise_if (not (mem_text gate core_gates)) Issues.non_canonical_gate
  raise_if (not (str_eq (h.stem decision_path) stem)) Issues.misnamed_decision
  raise_if
      (not (
        is_only decision_path
          (sibling_decisions h (h.parent decision_path) stem artifact_extensions)))
      Issues.ambiguous_decision
  raise_if (not (is_filled_text (get "package_path" decision))) Issues.decision_package_path_empty
  let package_dir = h.within (h.parent decision_path) (text_or_empty (get "package_path" decision))
  elim (h.relative_to package_dir decision_path) [
    | none ↦ raise Issues.decision_outside_package
    | some _ ↦ ok package_dir
  ]

-- One row of the decision's evidence: a file inside the package with the recorded hash.
check_evidence_row : Host → String → Value → Result LedgerError (Unit {0})
check_evidence_row h package_dir v = elim (as_object v) [
  | none ↦ raise Issues.evidence_not_object
  | some a ↦
      let path = h.within package_dir (text_or_empty (get "path" a)) in
      elim (h.relative_to package_dir path) [
        | none ↦ raise Issues.evidence_escapes
        | some _ ↦
            raise_if (not (h.is_file path && is_text (h.sha256_file path) (get "sha256" a)))
              Issues.evidence_differs
      ]
]

check_evidence_rows : Host → String → Items → Result LedgerError (Unit {0})
check_evidence_rows h package_dir end = ok tt
check_evidence_rows h package_dir (item v r) =
    check_evidence_row h package_dir v >> check_evidence_rows h package_dir r

check_evidence : Host → String → Value → Result LedgerError (Unit {0})
check_evidence h package_dir (array (item v r)) = check_evidence_rows h package_dir (item v r)
check_evidence h package_dir _ = raise Issues.evidence_empty

-- The evaluator is run again before a decision is allowed into the ledger.
check_reproduced : Host → String → String → Fields → Result LedgerError (Unit {0})
check_reproduced h ledger package_dir decision =
    h.evaluate_gate (record {
      package_dir = package_dir;
      gate = text_or_empty (get "gate_id" decision);
      reviewer = text_or_empty (get "reviewer" decision);
      ledger_path = ledger;
      entries = none;
    })
    >>= λ o. elim o [
      | none ↦ raise Issues.LedgerError.decision_not_reproduced
      | some d ↦
          let expected = insert "created_at" (get "created_at" decision) d in
          raise_if
            (not (str_eq (h.canonical_json (object expected)) (h.canonical_json (object decision))))
            Issues.LedgerError.decision_differs
    ]

abbrev pub is_decision : Value → Fields → Bool
is_decision decision_id e =
    is_v2 e && is_kind "gate_decision" e && value_eq (get "decision_id" e) decision_id

-- The end of `append_gate_decision`, by the recorded entry of the decision id.
unfoldable pub record_decision : Host → List Fields → Fields → Option Fields → LedgerAppendResult
record_decision h entries e (some existing) = record { entry = existing; appended = false }
record_decision h entries e none = append_sealed h entries e

unfoldable pub append_gate_decision : Host → String → String → Result LedgerError LedgerAppendResult
unfolding decision_package check_evidence_row check_evidence_rows check_evidence check_reproduced
append_gate_decision h ledger decision_path = do
  entries ← read_ledger_entries h ledger
  require_valid h ledger
  raise_if (not (h.validate_artifact decision_path "gate_decision")) Issues.invalid_decision
  document ← load h decision_path
  decision ← elim (as_object document) [
    | none ↦ raise Issues.LedgerError.decision_not_object
    | some d ↦ ok d
  ]
  package_dir ← decision_package h decision_path decision
  run_entry ← build_run_entry h package_dir null ledger
  raise_if (not (value_eq (get "package_id" decision) (get "package_id" run_entry)))
      Issues.package_id_differs
  raise_if (not (any_of (is_run_at h ledger (get "package_id" run_entry) package_dir) entries))
      Issues.LedgerError.run_not_recorded
  check_reproduced h ledger package_dir decision
  check_evidence h package_dir (get "evidence" decision)
  e ← build_gate_ledger_entry h decision decision_path package_dir run_entry ledger null
  ok (record_decision h entries e (find_first (is_decision (get "decision_id" e)) entries))

-- An entry that records the passage of a gate for a package at its directory.
abbrev pub is_passage : Host → String → String → String → String → Fields → Bool
is_passage h ledger package_id gate package_dir e =
    is_v2 e
    && is_kind "gate_decision" e
    && is_text package_id (get "package_id" e)
    && is_text gate (get "gate" e)
    && is_text "pass" (get "gate_result" e)
    && str_eq (h.beside ledger (text_or_empty (get "package_path" e))) package_dir

unfoldable pub has_passed_gate : Host → String → List Fields → String → String → String → Bool
has_passed_gate h ledger entries package_id gate package_dir =
    any_of (is_passage h ledger package_id gate package_dir) entries
