-- ===== src/Ledger/Shape.antt =====
-- The entries that the transactions write are well shaped.
use the_pass.Prelude.{String, true, ◌&&◌, ◌||◌, List, ◌≡◌, refl, sym, ap, ◌∙◌, inl, inr, Bool-cases}
use the_pass.Prelude.Result.{ok, returns, Ensures-bind, Ensures-of}
use the_pass.Json.{Value, text, Fields, get, is_text, is_null}
use the_pass.Json.Laws.{get-insert}
use the_pass.Ledger.Host.{Host}
use the_pass.Ledger.Entries.{
  is_v2, is_kind, schema_v1, schema_v2, is_supported_schema, is_supported_kind,
  is_complete_registration,
}
use the_pass.Ledger.Chain.{IsShaped}
use the_pass.Ledger.Growth.{seal-other}
use the_pass.Ledger.Append.{seal}
use the_pass.Ledger.RunEntry.{build_run_entry, with_lineage}
use the_pass.Ledger.Semantics.{build_gate_ledger_entry}

module _ (h : Host) (es : List Fields) (e : Fields) where
  pub seal-is_v2 : is_v2 (seal h es e) ≡ is_v2 e
  seal-is_v2 = ap (is_text schema_v2) (seal-other h es e "schema" refl refl)

  pub seal-is_kind : (kind : String) → is_kind kind (seal h es e) ≡ is_kind kind e
  seal-is_kind kind = ap (is_text kind) (seal-other h es e "entry_kind" refl refl)

  seal-is_supported_schema : is_supported_schema (seal h es e) ≡ is_supported_schema e
  seal-is_supported_schema =
      ap (λ v. is_text schema_v1 v || is_text schema_v2 v) (seal-other h es e "schema" refl refl)

  seal-is_supported_kind : is_supported_kind (seal h es e) ≡ is_supported_kind e
  seal-is_supported_kind =
      ap (λ v. is_text "run" v || is_text "gate_decision" v || is_text "robustness_registration" v)
        (seal-other h es e "entry_kind" refl refl)

  seal-is_complete_registration :
      is_complete_registration (seal h es e) ≡ is_complete_registration e
  seal-is_complete_registration = simp (
    seal-other h es e "events_fingerprint" refl refl,
    seal-other h es e "descriptor_fingerprint" refl refl,
    seal-other h es e "registration_fingerprint" refl refl,
    seal-other h es e "attempt" refl refl,
    seal-other h es e "variant_count" refl refl,
  )

  -- Sealing an entry leaves it well shaped.
  pub seal-IsShaped : IsShaped e → IsShaped (seal h es e)
  seal-IsShaped s = record {
    schema = seal-is_supported_schema ∙ s.schema;
    kind = λ p. seal-is_supported_kind ∙ s.kind (sym seal-is_v2 ∙ p);
    registration = λ p q.
        seal-is_complete_registration
        ∙ s.registration (sym seal-is_v2 ∙ p) (sym (seal-is_kind "robustness_registration") ∙ q);
  }

-- A v2 entry of a given kind, as the builders make them.
abbrev pub IsEntryOf : String → Fields → Type 0
IsEntryOf kind e = (get "schema" e ≡ text schema_v2) × (get "entry_kind" e ≡ text kind)

pub run-IsShaped : (e : Fields) → IsEntryOf "run" e → IsShaped e
run-IsShaped e (s, k) = record {
  schema = rw s refl;
  kind = λ _. rw k refl;
  registration = λ _ q. absurd (wrong (rw k at q));
}
  where
    wrong : is_text "robustness_registration" (text "run") ≡ true → ⊥
    wrong p = cc

pub decision-IsShaped : (e : Fields) → IsEntryOf "gate_decision" e → IsShaped e
decision-IsShaped e (s, k) = record {
  schema = rw s refl;
  kind = λ _. rw k refl;
  registration = λ _ q. absurd (wrong (rw k at q));
}
  where
    wrong : is_text "robustness_registration" (text "gate_decision") ≡ true → ⊥
    wrong p = cc

with_lineage-kind : (r e : Fields) → IsEntryOf "run" e → IsEntryOf "run" (with_lineage r e)
with_lineage-kind r e (s, k) =
    elim (Bool-cases
      (is_null (get "supersedes_package_id" r) && is_null (get "supersedes_artifacts_hash" r))) [
        | inl p ↦ rw p (s, k)
        | inr p ↦ rw p (simp get-insert s, simp get-insert k)
      ]

pub build_run_entry-kind :
    (h : Host) (p : String) (r : Value) (l : String) {e : Fields}
    → build_run_entry h p r l ≡ ok e
    → IsEntryOf "run" e
unfolding build_run_entry
build_run_entry-kind h p r l = Ensures-of (IsEntryOf "run") _ (
    Ensures-bind _ _ λ _ _. Ensures-bind _ _ λ _ _. Ensures-bind _ _ λ _ _. Ensures-bind _ _ λ _ _.
      Ensures-bind _ _ λ _ _. Ensures-bind _ _ λ _ _. Ensures-bind _ _ λ _ _.
        Ensures-bind _ _ λ _ _. Ensures-bind _ _ λ receipt _. Ensures-bind _ _ λ _ _.
          Ensures-bind _ _ λ _ _. Ensures-bind _ _ λ _ _. Ensures-bind _ _ λ _ _.
            Ensures-bind _ _
              λ _ _. Ensures-bind _ _ λ _ _. returns (with_lineage-kind receipt _ (refl, refl)))

pub build_gate_ledger_entry-kind :
    (h : Host) (d : Fields) (dp p : String) (run : Fields) (l : String) (r : Value) {e : Fields}
    → build_gate_ledger_entry h d dp p run l r ≡ ok e
    → IsEntryOf "gate_decision" e
unfolding build_gate_ledger_entry
build_gate_ledger_entry-kind h d dp p run l r =
    Ensures-of (IsEntryOf "gate_decision") _ (Ensures-bind _ _ λ _ _. returns (refl, refl))
