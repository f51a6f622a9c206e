-- ===== src/Supervisor/Ends.antt =====
-- A supervised run ends before its cycles run out.
use mathlib.Core.Path.{subst}
use the_pass.Prelude.{
  ℕ, zero, suc, ◌+◌, ◌-◌, ◌≤◌, String, Bool, true, false, not, ◌&&◌, ◌==◌, Option, none, some, ◌≡◌,
  ◌⊎◌, inl, inr, refl, sym, ap, ◌∙◌, arith, mem_text, str_eq, eq_iff, lookup, Bool-cases,
  Option-cases,
}
use the_pass.Prelude.Result.{Result, ok, raise, ◌>>◌, >>-eq-ok, >>=-eq-ok, raise_if-eq-ok}
use the_pass.Workflow.Errors.{WorkflowError}
use the_pass.Workflow.State.{Policy, World, State, validate_workflow_state}
use the_pass.Workflow.Valid.{IsValid, validate_workflow_state-IsValid}
use the_pass.Workflow.Evidence.{verify_workflow_evidence}
use the_pass.Supervisor.Transition.{
  SupervisorError, spends_one, is_budget_stop, validate_supervised_transition,
}
use the_pass.Supervisor.Loop.{
  Driven, Drivers, stop_statuses, review_gate_transitions, Failure, Outcome, failed, checkpoint,
  of_workflow, invalid_state, of_supervisor, read_proposal, hold_for_review, run_cycle,
  is_driver_failure, supervise_from, supervise_workflow,
}

-- A failure, or a state at which the workflow stops.
pub data IsEnded : Outcome → Type 0 where
  fails : {f : Failure} {s : State} → IsEnded (failed f s)
  stops : {s : State} → mem_text s.status stop_statuses ≡ true → IsEnded (checkpoint s)

goes_on-differs :
    (s : State) (t : String)
    → mem_text t stop_statuses ≡ true
    → mem_text s.status stop_statuses ≡ false
    → s.status ≡ t
    → ⊥
goes_on-differs s t m h e = let q = ap (λ x. mem_text x stop_statuses) e ∙ m in cc

-- The state that is held for a review waits.
hold_for_review-cases :
    (x : Drivers) (s c : State)
    → (hold_for_review x s c ≡ c) ⊎ ((hold_for_review x s c).status ≡ "waiting")
unfolding hold_for_review
hold_for_review-cases x s c = elim (Option-cases (lookup s.stage review_gate_transitions)) [
  | inl n ↦ rw (n, hold_for_review) (inl refl)
  | inr g ↦ elim (Bool-cases (x.is_agent s && str_eq c.stage g.0)) [
    | inl b ↦ rw (g.1, b, hold_for_review) (inr refl)
    | inr b ↦ rw (g.1, b, hold_for_review) (inl refl)
  ]
]

-- The transition test of a validated pair of states.
validate_supervised_transition-spends :
    (w : World) (p : Policy) (a b : State)
    → validate_supervised_transition w p a b ≡ ok tt
    → not (spends_one a b) && not (is_budget_stop a b) ≡ false
unfolding validate_supervised_transition
validate_supervised_transition-spends w p a b h =
    let q = >>-eq-ok _ _ h in
    let r = >>-eq-ok _ _ q.1 in let s = >>-eq-ok _ _ r.1 in raise_if-eq-ok _ _ s.0

read_proposal-IsValid :
    (w : World) (p : Policy) (d : Driven) (c : State) → read_proposal w p d ≡ ok c → IsValid w p c
unfolding read_proposal
read_proposal-IsValid w p d c h = go d.proposal refl
  where
    same : (u v : State) → ◌≡◌ {A = Result Failure State} (ok u) (ok v) → u ≡ v
    same u v z = cc

    passed :
        (m : Result WorkflowError (Unit {0})) (f : Failure) → of_workflow m f ≡ ok tt → m ≡ ok tt
    passed (ok tt) f z = refl
    passed (raise e) f z = cc

    go : (o : Option State) → d.proposal ≡ o → IsValid w p c
    go none e = let y : raise invalid_state ≡ ok c = rw (e, read_proposal) at h in cc
    go (some s) e =
        let a =
          >>=-eq-ok
            (of_workflow (validate_workflow_state w p s >> verify_workflow_evidence w s)
              invalid_state)
            _ (rw (e, read_proposal) at h) in
        subst (IsValid w p) (same _ _ a.2) (
          validate_workflow_state-IsValid w p s
            (>>-eq-ok (validate_workflow_state w p s) _ (passed _ _ a.1)).0)

of_supervisor-eq-ok : (m : Result SupervisorError (Unit {0})) → of_supervisor m ≡ ok tt → m ≡ ok tt
of_supervisor-eq-ok (ok tt) z = refl
of_supervisor-eq-ok (raise e) z = cc

-- A written state was proposed as a valid one, and passed the transition test.
pub run_cycle-accepts :
    (w : World) (p : Policy) (x : Drivers) (s t : State) (d : Driven)
    → run_cycle w p x s d ≡ ok t
    → (c : State) × IsValid w p c
      × (t ≡ hold_for_review x s c)
      × (validate_supervised_transition w p s t ≡ ok tt)
unfolding run_cycle
run_cycle-accepts w p x s t d h =
    let a = >>-eq-ok _ _ h in
    let b = >>-eq-ok _ _ a.1 in
    let c = >>-eq-ok _ _ b.1 in
    let q = >>=-eq-ok _ _ c.1 in
    let e = >>-eq-ok _ _ q.2 in
    let f = >>-eq-ok _ _ e.1 in
    let g = >>-eq-ok _ _ f.1 in
    let y : hold_for_review x s q.0 ≡ t = same _ _ g.1 in
    (q.0, read_proposal-IsValid w p d q.0 q.1, sym y, of_supervisor-eq-ok _ (rw y at f.0))
  where
    same : (u v : State) → ◌≡◌ {A = Result Failure State} (ok u) (ok v) → u ≡ v
    same u v z = cc

-- A cycle after which the loop goes on has spent one transition of the budget.
run_cycle-spends :
    (w : World) (p : Policy) (x : Drivers) (s t : State) (d : Driven)
    → run_cycle w p x s d ≡ ok t
    → mem_text t.status stop_statuses ≡ false
    → (t.transitions_used ≡ s.transitions_used + 1) × (t.transitions_used ≤ p.max_transitions)
run_cycle-spends w p x s t d h n =
    let a = run_cycle-accepts w p x s t d h in
    let v : IsValid w p t = elim (hold_for_review-cases x s a.0) [
      | inl e ↦ subst (IsValid w p) (sym (a.2 ∙ e)) a.1
      | inr e ↦ absurd (goes_on-differs t "waiting" refl n (ap (λ u. u.status) a.2 ∙ e))
    ] in
    (spent (validate_supervised_transition-spends w p s t a.3) v, v.within_transitions)
  where
    counted :
        t.transitions_used == s.transitions_used + 1 ≡ true
        → t.transitions_used ≡ s.transitions_used + 1
    counted z = ground arith

    stopped : (a b c e : Bool) → not false && not (a && b && c && e) ≡ false → b ≡ true
    stopped a b c e z = ground arith

    spent :
        not (spends_one s t) && not (is_budget_stop s t) ≡ false
        → IsValid w p t
        → t.transitions_used ≡ s.transitions_used + 1
    spent q v = elim (Bool-cases (spends_one s t)) [
      | inl b ↦ elim (Bool-cases (str_eq t.stage "complete")) [
        | inl k ↦ absurd (
            goes_on-differs t "complete" refl n
              (v.complete_together.0 ((eq_iff t.stage "complete").0 k)))
        | inr k ↦ counted (rw k at b)
      ]
      | inr b ↦
          let y : not false && not (is_budget_stop s t) ≡ false = rw b at q in
          absurd (
            goes_on-differs t "blocked" refl n (
              (eq_iff t.status "blocked").0
                (stopped (str_eq t.stage s.stage) (str_eq t.status "blocked") _ _ y)))
    ]

-- One round, given that the rest of the loop ends from every state with the budget.
supervise_from-round :
    (w : World) (p : Policy) (x : Drivers) (n i : ℕ) (s : State)
    → p.max_transitions + 1 ≤ suc n + s.transitions_used
    → ((t : State)
        → p.max_transitions + 1 ≤ n + t.transitions_used
        → t.transitions_used ≤ p.max_transitions
        → IsEnded (supervise_from w p x n (i + 1) t))
    → (r : Result Failure State) → run_cycle w p x s (x.drive i s) ≡ r
    → IsEnded (supervise_from w p x (suc n) i s)
unfolding supervise_from
supervise_from-round w p x n i s b k (raise f) e = rw (e, supervise_from) fails
supervise_from-round w p x n i s b k (ok t) e =
    elim (Bool-cases (is_driver_failure (x.drive i s) t)) [
      | inl d ↦ rw (e, d, supervise_from) fails
      | inr d ↦ elim (Bool-cases (mem_text t.status stop_statuses)) [
        | inl m ↦ rw (e, d, m, supervise_from) (stops m)
        | inr m ↦
            let q = run_cycle-spends w p x s t (x.drive i s) e m in
            rw (e, d, m, supervise_from) (k t (omega (arith, q.0)) q.1)
      ]
    ]

supervise_from-IsEnded :
    (w : World) (p : Policy) (x : Drivers) (n i : ℕ) (s : State)
    → p.max_transitions + 1 ≤ n + s.transitions_used
    → s.transitions_used ≤ p.max_transitions
    → IsEnded (supervise_from w p x n i s)
unfolding supervise_from
supervise_from-IsEnded w p x zero i s b v = let y : ⊥ = omega arith in absurd y
supervise_from-IsEnded w p x (suc n) i s b v =
    supervise_from-round w p x n i s b (λ t c u. supervise_from-IsEnded w p x n (i + 1) t c u)
      (run_cycle w p x s (x.drive i s)) refl

-- From a state that satisfies the checks, and without a limit by the caller, a supervised run has an
-- outcome, which is a failure of a cycle or a checkpoint at which the workflow stops: whatever the
-- drivers do, the cycles never run out.
pub supervise_workflow-IsEnded :
    (w : World) (p : Policy) (x : Drivers) (s : State)
    → validate_workflow_state w p s ≡ ok tt
    → (o : Outcome) × (supervise_workflow w p x none s ≡ some o) × IsEnded o
unfolding supervise_workflow
supervise_workflow-IsEnded w p x s h =
    let v = (validate_workflow_state-IsValid w p s h).within_transitions in
    let z : ((p.max_transitions + 1) - s.transitions_used == 0) ≡ false = positive _ _ v in
    elim (Bool-cases (mem_text s.status stop_statuses)) [
      | inl m ↦ (checkpoint s, rw (z, m, supervise_workflow) refl, stops m)
      | inr m ↦ (
        supervise_from w p x ((p.max_transitions + 1) - s.transitions_used) 1 s,
        rw (z, m, supervise_workflow) refl,
        supervise_from-IsEnded w p x ((p.max_transitions + 1) - s.transitions_used) 1 s
            (omega arith) v,
      )
    ]
  where
    positive : (a b : ℕ) → b ≤ a → ((a + 1) - b == 0) ≡ false
    positive a b c = ground arith
