-- ===== src/Workflow/Legal.antt =====
-- What `advance_workflow_state` lets through: legal transitions, from states that are not closed.
use the_pass.Prelude.{
  ℕ, ◌≤◌, leb, String, Bool, true, false, not, ◌&&◌, ◌||◌, List, ◌≡◌, ◌↔◌, refl, ap, ◌∙◌, arith,
  str_eq, eq_iff, mem_text, Bool-cases, inl, inr, ◌⊎◌,
}
use the_pass.Prelude.Result.{ok, raise, ◌>>=◌, >>=-eq-ok, >>-eq-ok, raise_if-eq-ok, Ensures-of}
use the_pass.Workflow.Errors.{terminal, blocked_needs_resume, budgets_exhausted}
use the_pass.Workflow.State.{Policy, World, State, validate_workflow_state}
use the_pass.Workflow.Checks.{
  Move, destination, transitions_from, is_exhausted, is_terminal, check_resumable, check_transition,
  check_completion,
}
use the_pass.Workflow.Advance.{advance_workflow_state}
use the_pass.Workflow.Evidence.{workflow_target_passes}
use the_pass.Workflow.Valid.{IsValid, validate_workflow_state-IsValid}
use the_pass.Workflow.Progress.{IsSpent, spend_transition-IsSpent}

-- No advance leaves this state: it is terminal, or is blocked with a budget used up.
abbrev pub is_closed : Policy → State → Bool
is_closed p s = is_terminal s.status || (str_eq s.status "blocked" && is_exhausted p s)

-- What `check_transition` has established when it does not raise.
pub record IsLegal (w : World) (p : Policy) (s : State) (m : Move) : Type 0 where
  pub allowed :
      (destination s m ≡ s.stage) ⊎ (mem_text (destination s m) (transitions_from p s.stage) ≡ true)
  pub completes : (m.status ≡ "complete") ↔ (destination s m ≡ "complete")
  pub passed :
      destination s m ≡ "complete"
      → (s.stage ≡ s.target_gate) × (workflow_target_passes w s ≡ ok true)

check_resumable-open :
    (p : Policy) (s : State) (m : Move) → check_resumable p s m ≡ ok tt → is_closed p s ≡ false
unfolding check_resumable
check_resumable-open p s m h =
    let a = >>-eq-ok _ _ h in
    let b = >>-eq-ok _ _ a.1 in
    let c = >>-eq-ok _ _ b.1 in
    closed _ _ _ _ (raise_if-eq-ok _ _ a.0) (raise_if-eq-ok _ _ b.0) (raise_if-eq-ok _ _ c.0)
  where
    closed :
        (t b r x : Bool)
        → t ≡ false
        → (b && not r) ≡ false
        → (b && (r && x)) ≡ false
        → (t || (b && x)) ≡ false
    closed t b r x e f g = ground arith

check_resumable-closed :
    (p : Policy) (s : State) (m : Move)
    → is_closed p s ≡ true
    → (check_resumable p s m ≡ raise terminal)
      ⊎ ((check_resumable p s m ≡ raise blocked_needs_resume)
          ⊎ (check_resumable p s m ≡ raise budgets_exhausted))
unfolding check_resumable ◌>>=◌
check_resumable-closed p s m c = ground arith

-- No move is open to the state any more: it has ended, or is blocked with a budget used up.
pub data IsClosed (p : Policy) (s : State) : Type 0 where
  killed : s.status ≡ "killed" → IsClosed p s
  complete : s.status ≡ "complete" → IsClosed p s
  out_of_transitions : s.status ≡ "blocked" → p.max_transitions ≤ s.transitions_used → IsClosed p s
  out_of_laps : s.status ≡ "blocked" → p.max_remediation_laps ≤ s.remediation_laps → IsClosed p s
  out_of_progress : s.status ≡ "blocked" → p.max_no_progress ≤ s.no_progress_laps → IsClosed p s

IsClosed-is_closed : (p : Policy) (s : State) → IsClosed p s → is_closed p s ≡ true
IsClosed-is_closed p s c =
    let k = str_eq s.status "killed" in
    let e = str_eq s.status "complete" in
    let b = str_eq s.status "blocked" in
    let x = leb p.max_transitions s.transitions_used in
    let y = leb p.max_remediation_laps s.remediation_laps in
    let z = leb p.max_no_progress s.no_progress_laps in
    elim c [
      | killed f ↦ first k e b x y z ((eq_iff s.status "killed").1 f)
      | complete f ↦ second k e b x y z ((eq_iff s.status "complete").1 f)
      | out_of_transitions f g ↦ spent k e b x y z (blocked f) (inl (at_most g))
      | out_of_laps f g ↦ spent k e b x y z (blocked f) (inr (inl (at_most g)))
      | out_of_progress f g ↦ spent k e b x y z (blocked f) (inr (inr (at_most g)))
    ]
  where
    blocked : s.status ≡ "blocked" → str_eq s.status "blocked" ≡ true
    blocked e = (eq_iff s.status "blocked").1 e

    at_most : {m n : ℕ} → m ≤ n → leb m n ≡ true
    at_most {m} {n} b = ground arith

    first : (k c b x y z : Bool) → k ≡ true → ((k || c) || (b && (x || y || z))) ≡ true
    first k c b x y z e = ground arith

    second : (k c b x y z : Bool) → c ≡ true → ((k || c) || (b && (x || y || z))) ≡ true
    second k c b x y z e = ground arith

    spent :
        (k c b x y z : Bool)
        → b ≡ true
        → (x ≡ true) ⊎ ((y ≡ true) ⊎ (z ≡ true))
        → ((k || c) || (b && (x || y || z))) ≡ true
    spent k c b x y z e (inl f) = ground arith
    spent k c b x y z e (inr (inl f)) = ground arith
    spent k c b x y z e (inr (inr f)) = ground arith

-- From a state that passes the checks and is killed, complete, or blocked with its transitions, its
-- remediation laps or its laps without progress used up, every move raises: as terminal, for want of
-- a resume, or because the budgets are exhausted.
pub advance_workflow_state-closed :
    (w : World) (p : Policy) (s : State) (m : Move)
    → validate_workflow_state w p s ≡ ok tt
    → IsClosed p s
    → (advance_workflow_state w p s m ≡ raise terminal)
      ⊎ ((advance_workflow_state w p s m ≡ raise blocked_needs_resume)
          ⊎ (advance_workflow_state w p s m ≡ raise budgets_exhausted))
unfolding advance_workflow_state ◌>>=◌
advance_workflow_state-closed w p s m v c =
    elim (check_resumable-closed p s m (IsClosed-is_closed p s c)) [
      | inl a ↦ inl (rw (v, a) refl)
      | inr (inl b) ↦ inr (inl (rw (v, b) refl))
      | inr (inr d) ↦ inr (inr (rw (v, d) refl))
    ]

implied : {a b : Bool} → a ≡ true → (a && not b) ≡ false → b ≡ true
implied {a} {b} q e = ground arith

check_completion-passes :
    (w : World) (s : State) → check_completion w s ≡ ok tt → workflow_target_passes w s ≡ ok true
unfolding check_completion
check_completion-passes w s h =
    let p = >>=-eq-ok _ _ h in p.1 ∙ ap ok (not_false (raise_if-eq-ok _ _ p.2))
  where
    not_false : {b : Bool} → not b ≡ false → b ≡ true
    not_false {b} e = ground arith

taken {ℓ} :
    {A : Type ℓ} (b : Bool) (x y r : A) → b ≡ true → elim b [ false ↦ y | true ↦ x ] ≡ r → x ≡ r
taken true x y r e h = h
taken false x y r e h = cc

check_transition-IsLegal :
    (w : World) (p : Policy) (s : State) (m : Move)
    → check_transition w p s m ≡ ok tt
    → IsLegal w p s m
unfolding check_transition
check_transition-IsLegal w p s m h =
    let a = >>-eq-ok _ _ h in
    let b = >>-eq-ok _ _ a.1 in
    let c = >>-eq-ok _ _ b.1 in
    let d = >>-eq-ok _ _ c.1 in
    let e = >>-eq-ok _ _ d.1 in
    record {
      allowed = allowed _ _ _ (raise_if-eq-ok _ _ a.0);
      completes = completes _ _ (raise_if-eq-ok _ _ b.0) (raise_if-eq-ok _ _ c.0);
      passed = λ q.
          let r = (eq_iff _ _).1 q in
          (
            (eq_iff _ _).0 (implied r (raise_if-eq-ok _ _ e.0)),
            check_completion-passes w s (taken _ _ _ _ r e.1),
          );
    }
  where
    allowed :
        (to : String) (here : String) (next : List String)
        → (not (str_eq to here) && not (mem_text to next)) ≡ false
        → (to ≡ here) ⊎ (mem_text to next ≡ true)
    allowed to here next e = elim (Bool-cases (str_eq to here)) [
      | inl q ↦ inl ((eq_iff to here).0 q)
      | inr q ↦ inr (open_to q e)
    ]
      where
        open_to : {a b : Bool} → a ≡ false → (not a && not b) ≡ false → b ≡ true
        open_to {a} {b} q e = ground arith

    completes :
        (status to : String)
        → (str_eq status "complete" && not (str_eq to "complete")) ≡ false
        → (str_eq to "complete" && not (str_eq status "complete")) ≡ false
        → (status ≡ "complete") ↔ (to ≡ "complete")
    completes status to e f = (
      λ q. (eq_iff to "complete").0 (implied ((eq_iff status "complete").1 q) e),
      λ q. (eq_iff status "complete").0 (implied ((eq_iff to "complete").1 q) f),
    )

-- What a move has made of the state, when it is made.
pub record IsAdvance (w : World) (p : Policy) (s : State) (m : Move) (t : State) : Type 0 where
  pub spent : IsSpent w p s m t
  pub legal : IsLegal w p s m
  pub not_closed : is_closed p s ≡ false
  pub was_valid : IsValid w p s

pub advance_workflow_state-IsAdvance :
    (w : World) (p : Policy) (s t : State) (m : Move)
    → advance_workflow_state w p s m ≡ ok t
    → IsAdvance w p s m t
unfolding advance_workflow_state
advance_workflow_state-IsAdvance w p s t m h =
    let a = >>-eq-ok _ _ h in
    let b = >>-eq-ok _ _ a.1 in
    let c = >>-eq-ok _ _ b.1 in
    let d = >>-eq-ok _ _ c.1 in
    record {
      spent = Ensures-of (IsSpent w p s m) _ (spend_transition-IsSpent w p s m) d.1;
      legal = check_transition-IsLegal w p s m d.0;
      not_closed = check_resumable-open p s m b.0;
      was_valid = validate_workflow_state-IsValid w p s a.0;
    }
