-- ===== src/Workflow/Gated.antt =====
-- What the ledger shows of a stage whose evidence was verified.
use the_pass.Prelude.{
  String, Bool, true, false, not, ◌&&◌, none, some, List, [], ◌∷◌, ◌≡◌, ◌≢◌, refl, ap, ◌∙◌, arith,
  is_nil, all_of, any_of, find_first, Option-cases, inl, inr,
}
use the_pass.Prelude.Result.{Result, ok, raise, raise_if, >>=-eq-ok, >>-eq-ok, raise_if-eq-ok}
use the_pass.Json.{text, Fields}
use the_pass.Ledger.Host.{Host}
use the_pass.Ledger.Issues.{LedgerError, Issue}
use the_pass.Ledger.Entries.{read_ledger_entries}
use the_pass.Ledger.Semantics.{is_run_at, verify_ledger_file}
use the_pass.Ledger.Append.{has_passed_gate}
use the_pass.Workflow.Errors.{package_required}
use the_pass.Workflow.State.{World, State, Policy}
use the_pass.Workflow.Checks.{Move}
use the_pass.Workflow.Advance.{advance_workflow_state}
use the_pass.Workflow.Progress.{exhausted, unreviewed, made}
use the_pass.Workflow.Legal.{advance_workflow_state-IsAdvance}
use the_pass.Workflow.Evidence.{
  of_ledger, requires_recorded_package, prerequisite_gates, verified_entries, check_recorded,
  verify_package, verify_workflow_evidence,
}

-- The ledger verifies, and shows the exact package of the state as run and as past its gates.
pub record IsEvidenced (w : World) (s : State) : Type 0 where
  pub entries : List Fields
  pub package_path : String
  pub package_id : String
  pub ledger_reads : read_ledger_entries w.host s.ledger_path ≡ ok entries
  pub ledger_verifies : verify_ledger_file w.host s.ledger_path ≡ ok []
  pub is_package : s.package_path ≡ some package_path
  pub is_id : package_id ≡ elim s.package_id [ none ↦ "" | some i ↦ i ]
  pub recorded :
      any_of (is_run_at w.host s.ledger_path (text package_id) (w.resolve package_path)) entries
      ≡ true
  pub passed :
      all_of
        (λ gate.
          has_passed_gate w.host s.ledger_path entries package_id gate (w.resolve package_path))
        (prerequisite_gates s)
      ≡ true

true_of_not : {b : Bool} → not b ≡ false → b ≡ true
true_of_not {b} e = ground arith

of_ledger-eq-ok {ℓ} :
    {A : Type ℓ} (r : Result LedgerError A) {a : A} → of_ledger r ≡ ok a → r ≡ ok a
of_ledger-eq-ok (ok a) h = cc
of_ledger-eq-ok (raise e) h = cc

verified_entries-valid :
    (w : World) (s : State) (es : List Fields)
    → w.host.exists s.ledger_path ≡ true
    → verified_entries w s ≡ ok es
    → (read_ledger_entries w.host s.ledger_path ≡ ok es)
      × (verify_ledger_file w.host s.ledger_path ≡ ok [])
unfolding verified_entries
verified_entries-valid w s es x h =
    let p = >>=-eq-ok _ _ (rw (x, verified_entries) at h) in
    let q = >>-eq-ok _ _ p.2 in
    (
      of_ledger-eq-ok _ q.1,
      of_ledger-eq-ok _ p.1 ∙ ap ok (no_issues _ (true_of_not (raise_if-eq-ok _ _ q.0))),
    )
  where
    no_issues : (is : List Issue) → is_nil is ≡ true → is ≡ []
    no_issues [] e = refl
    no_issues (i ∷ is) e = cc

find_first-any_of :
    {A : Type 0} (p : A → Bool) (xs : List A) (a : A)
    → find_first p xs ≡ some a
    → any_of p xs ≡ true
find_first-any_of p [] a h = cc
find_first-any_of p (x ∷ xs) a h = ground (arith, find_first-any_of p xs a)

recorded_run :
    (h : Host) (stage : String) (run : Fields) (p : Fields → Bool) (es : List Fields)
    → requires_recorded_package stage ≡ true
    → check_recorded h stage run (find_first p es) ≡ ok tt
    → any_of p es ≡ true
unfolding check_recorded
recorded_run h stage run p es x c = elim (Option-cases (find_first p es)) [
  | inl e ↦ missing (rw e at c)
  | inr (a, e) ↦ find_first-any_of p es a e
]
  where
    missing : check_recorded h stage run none ≡ ok tt → any_of p es ≡ true
    missing d = let q = raise_if-eq-ok _ _ d in cc

verify_package-parts :
    (w : World) (s : State) (es : List Fields) (pkg id : String)
    → requires_recorded_package s.stage ≡ true
    → verify_package w s es pkg id ≡ ok tt
    → (any_of (is_run_at w.host s.ledger_path (text id) (w.resolve pkg)) es ≡ true)
      × (all_of
            (λ gate. has_passed_gate w.host s.ledger_path es id gate (w.resolve pkg))
            (prerequisite_gates s)
          ≡ true)
unfolding verify_package
verify_package-parts w s es pkg id x h =
    let a = >>-eq-ok _ _ h in
    let b = >>=-eq-ok _ _ a.1 in
    let c = >>-eq-ok _ _ b.2 in
    let d = >>-eq-ok _ _ c.1 in
    let e = >>-eq-ok _ _ d.1 in
    (
      recorded_run w.host s.stage b.0 (is_run_at w.host s.ledger_path (text id) (w.resolve pkg)) es
          x d.0,
      true_of_not (raise_if-eq-ok _ _ e.1),
    )

-- If the evidence of a state is verified at a stage that asks for a recorded package, the ledger
-- verifies, holds the run of the state's package at its directory, and shows each gate that the
-- stage presupposes as passed for that package; at `complete` that is the target gate.
pub verify_workflow_evidence-IsEvidenced :
    (w : World) (s : State)
    → requires_recorded_package s.stage ≡ true
    → verify_workflow_evidence w s ≡ ok tt
    → IsEvidenced w s
unfolding verify_workflow_evidence
verify_workflow_evidence-IsEvidenced w s x h =
    let a = >>-eq-ok _ _ h in
    let b = >>=-eq-ok _ _ a.1 in
    let c = >>-eq-ok _ _ b.2 in
    let v = verified_entries-valid w s b.0 (exists _ _ x (raise_if-eq-ok _ _ a.0)) b.1 in
    elim (Option-cases s.package_path) [
      | inl e ↦ missing (rw e at c.1)
      | inr (pkg, e) ↦ shown b.0 v pkg e (rw e at c.1)
    ]
  where
    exists : (r e : Bool) → r ≡ true → (r && not e) ≡ false → e ≡ true
    exists r e p q = ground arith

    missing :
        raise_if (requires_recorded_package s.stage) package_required ≡ ok tt → IsEvidenced w s
    missing d = let q = raise_if-eq-ok _ _ d in cc

    shown :
        (es : List Fields)
        → (read_ledger_entries w.host s.ledger_path ≡ ok es)
          × (verify_ledger_file w.host s.ledger_path ≡ ok [])
        → (pkg : String) → s.package_path ≡ some pkg
        → verify_package w s es pkg (elim s.package_id [ none ↦ "" | some id ↦ id ]) ≡ ok tt
        → IsEvidenced w s
    shown es v pkg e d =
        let q = verify_package-parts w s es pkg _ x d in
        record {
          entries = es;
          package_path = pkg;
          package_id = elim s.package_id [ none ↦ "" | some id ↦ id ];
          ledger_reads = v.0;
          ledger_verifies = v.1;
          is_package = e;
          is_id = refl;
          recorded = q.0;
          passed = q.1;
        }

-- A state that `advance_workflow_state` returns at a stage that asks for a recorded package, and not
-- as blocked, has a ledger that verifies, holds the run of the state's package at its directory, and
-- shows each gate that the stage presupposes as passed for that package.
pub advance_workflow_state-IsEvidenced :
    (w : World) (p : Policy) (s t : State) (m : Move)
    → advance_workflow_state w p s m ≡ ok t
    → t.status ≢ "blocked"
    → requires_recorded_package t.stage ≡ true
    → IsEvidenced w t
advance_workflow_state-IsEvidenced w p s t m h n x =
    elim (advance_workflow_state-IsAdvance w p s t m h).spent.moved [
      | exhausted e f g ↦ absurd (n f)
      | unreviewed e f g ↦ absurd (n f)
      | made e f v ↦ verify_workflow_evidence-IsEvidenced w t x v
    ]
