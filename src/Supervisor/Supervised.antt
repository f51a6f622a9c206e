-- ===== src/Supervisor/Supervised.antt =====
-- What a transition that the supervisor accepts has kept.
use the_pass.Prelude.{
  not-eq-false, ℕ, ◌+◌, ◌≤◌, Bool, true, false, not, ◌&&◌, ◌||◌, ◌==◌, ◌≡◌, ◌⊎◌, inl, inr, refl,
  arith, any_of, mem_text, str_eq, eq_iff, Bool-cases, &&-eq-true,
}
use the_pass.Prelude.Result.{Result, ok, raise, >>-eq-ok, raise_if-eq-ok}
use the_pass.Workflow.Errors.{WorkflowError}
use the_pass.Workflow.State.{Policy, World, State}
use the_pass.Workflow.Progress.{identity_of}
use the_pass.Workflow.Evidence.{verify_workflow_evidence}
use the_pass.Workflow.Checks.{transitions_from}
use the_pass.Supervisor.Transition.{
  contains, same_identity, spends_one, is_budget_stop, is_later, of_workflow,
  validate_supervised_transition,
}

-- The transition budget: a completion is free, work counts one, and a state that the budget has
-- stopped stays where it is.
pub data Spends (a b : State) : Type 0 where
  completes : b.stage ≡ "complete" → b.transitions_used ≡ a.transitions_used → Spends a b
  works : b.transitions_used ≡ a.transitions_used + 1 → Spends a b
  stops :
      b.stage ≡ a.stage
      → b.status ≡ "blocked"
      → b.transitions_used ≡ a.transitions_used
      → any_of (contains "budget exhausted") b.blockers ≡ true
      → Spends a b

-- An accepted transition.
pub record IsSupervised (w : World) (p : Policy) (a b : State) : Type 0 where
  pub identity : identity_of b ≡ identity_of a
  pub listed : (b.stage ≡ a.stage) ⊎ (mem_text b.stage (transitions_from p a.stage) ≡ true)
  pub spends : Spends a b
  pub laps :
      (a.remediation_laps ≤ b.remediation_laps) × (b.remediation_laps ≤ a.remediation_laps + 1)
  pub progress :
      (a.no_progress_laps ≤ b.no_progress_laps + 1) × (b.no_progress_laps ≤ a.no_progress_laps + 1)
  pub later : is_later w a b ≡ true
  pub evidenced : verify_workflow_evidence w b ≡ ok tt

either : (a b : Bool) → not a && not b ≡ false → (a ≡ true) ⊎ (b ≡ true)
either true b h = inl refl
either false b h = inr (not-eq-false b h)

eight :
    (a b c d e f g i : Bool)
    → a && b && c && d && e && f && g && i ≡ true
    → (a ≡ true)
      × (b ≡ true)
      × (c ≡ true)
      × (d ≡ true)
      × (e ≡ true)
      × (f ≡ true)
      × (g ≡ true)
      × (i ≡ true)
eight a b c d e f g i h = (
  ground arith,
  ground arith,
  ground arith,
  ground arith,
  ground arith,
  ground arith,
  ground arith,
  ground arith,
)

same_identity-eq : (a b : State) → same_identity a b ≡ true → identity_of b ≡ identity_of a
unfolding same_identity
same_identity-eq a b h =
    let k =
      eight (str_eq a.run_id b.run_id) (str_eq a.strategy_id b.strategy_id)
        (str_eq a.objective b.objective) (str_eq a.target_gate b.target_gate)
        (str_eq a.strategy_owner b.strategy_owner) (str_eq a.run_owner b.run_owner)
        (str_eq a.started_at b.started_at) (str_eq a.ledger_path b.ledger_path) h in
    let e0 = (eq_iff a.run_id b.run_id).0 k.0 in
    let e1 = (eq_iff a.strategy_id b.strategy_id).0 k.1 in
    let e2 = (eq_iff a.objective b.objective).0 k.2 in
    let e3 = (eq_iff a.target_gate b.target_gate).0 k.3 in
    let e4 = (eq_iff a.strategy_owner b.strategy_owner).0 k.4 in
    let e5 = (eq_iff a.run_owner b.run_owner).0 k.5 in
    let e6 = (eq_iff a.started_at b.started_at).0 k.6 in
    let e7 = (eq_iff a.ledger_path b.ledger_path).0 k.7 in cc

spends_one-Spends : (a b : State) → spends_one a b ≡ true → Spends a b
spends_one-Spends a b h = elim (Bool-cases (str_eq b.stage "complete")) [
  | inl k ↦ completes ((eq_iff b.stage "complete").0 k) (same _ _ (rw k at h))
  | inr k ↦ works (same _ _ (rw k at h))
]
  where
    same : (m n : ℕ) → m == n ≡ true → m ≡ n
    same m n z = ground arith

is_budget_stop-Spends : (a b : State) → is_budget_stop a b ≡ true → Spends a b
is_budget_stop-Spends a b h =
    let p = &&-eq-true _ (any_of (contains "budget exhausted") b.blockers) h in
    let q = &&-eq-true _ (b.transitions_used == a.transitions_used) p.0 in
    let r = &&-eq-true (str_eq b.stage a.stage) (str_eq b.status "blocked") q.0 in
    stops ((eq_iff b.stage a.stage).0 r.0) ((eq_iff b.status "blocked").0 r.1) (same _ _ q.1) p.1
  where
    same : (m n : ℕ) → m == n ≡ true → m ≡ n
    same m n z = ground arith

-- The counters of the laps.
small_jumps :
    (a b c d : ℕ)
    → (b == a || b == a + 1) && (d == c || d == c + 1 || d + 1 == c) ≡ true
    → ((a ≤ b) × (b ≤ a + 1)) × ((c ≤ d + 1) × (d ≤ c + 1))
small_jumps a b c d h = ((ground arith, ground arith), (ground arith, ground arith))

-- A transition that passes the supervisor's validation keeps all that identifies the run, and stays
-- at its stage or takes a listed transition. It counts one transition, unless it completes or is
-- blocked where it stands by a used-up budget. It changes the lap counters by one at most, does not
-- go back in time and leaves a state whose evidence verifies.
pub validate_supervised_transition-IsSupervised :
    (w : World) (p : Policy) (before after : State)
    → validate_supervised_transition w p before after ≡ ok tt
    → IsSupervised w p before after
unfolding validate_supervised_transition
validate_supervised_transition-IsSupervised w p a b h =
    let h1 = >>-eq-ok _ _ h in
    let h2 = >>-eq-ok _ _ h1.1 in
    let h3 = >>-eq-ok _ _ h2.1 in
    let h4 = >>-eq-ok _ _ h3.1 in
    let h5 = >>-eq-ok _ _ h4.1 in
    let j = small_jumps _ _ _ _ (not-eq-false _ (raise_if-eq-ok _ _ h4.0)) in
    record {
      identity = same_identity-eq a b (not-eq-false _ (raise_if-eq-ok _ _ h1.0));
      listed = elim (either _ _ (raise_if-eq-ok _ _ h2.0)) [
        | inl x ↦ inl ((eq_iff b.stage a.stage).0 x)
        | inr x ↦ inr x
      ];
      spends = elim (either _ _ (raise_if-eq-ok _ _ h3.0)) [
        | inl x ↦ spends_one-Spends a b x
        | inr x ↦ is_budget_stop-Spends a b x
      ];
      laps = j.0;
      progress = j.1;
      later = not-eq-false _ (raise_if-eq-ok _ _ h5.0);
      evidenced = passed _ h5.1;
    }
  where
    passed : (m : Result WorkflowError (Unit {0})) → of_workflow m ≡ ok tt → m ≡ ok tt
    passed (ok tt) z = refl
    passed (raise e) z = cc
