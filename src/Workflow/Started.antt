-- ===== src/Workflow/Started.antt =====
-- Runs from a state that `new_workflow_state` made.
use the_pass.Prelude.{ℕ, ◌+◌, ◌≤◌, true, false, ◌≡◌, refl, ap, ◌∙◌, arith, ◌∷◌, ◌⊎◌, inl, inr}
use the_pass.Prelude.Result.{ok, Ensures-bind, Ensures-of, returns}
use the_pass.Workflow.State.{Policy, World, State, needs_reviewer}
use the_pass.Workflow.Start.{Start, new_workflow_state}
use the_pass.Workflow.Evidence.{workflow_target_passes, verify_workflow_evidence}
use the_pass.Workflow.Checks.{Move}
use the_pass.Workflow.Advance.{advance_workflow_state}
use the_pass.Workflow.Valid.{IsValid, validate_workflow_state-IsValid}
use the_pass.Workflow.Progress.{identity_of}
use the_pass.Workflow.Bounded.{
  Advances, once, then_on, advance_workflow_state-IsLegalStep, advance_workflow_state_complete,
  Advances-bounded,
}

-- The state that a workflow starts in.
pub record IsStarted (w : World) (p : Policy) (a : Start) (s : State) : Type 0 where
  pub valid : IsValid w p s
  pub at_preflight : s.stage ≡ "preflight"
  pub in_progress : s.status ≡ "in_progress"
  pub unspent : s.transitions_used ≡ 0
  pub same_run : s.run_id ≡ a.run_id
  pub same_target : s.target_gate ≡ a.target_gate

new_workflow_state-IsStarted :
    (w : World) (p : Policy) (a : Start) (s : State)
    → new_workflow_state w p a ≡ ok s
    → IsStarted w p a s
unfolding new_workflow_state
new_workflow_state-IsStarted w p a s h =
    Ensures-of (IsStarted w p a) _
      (Ensures-bind _ _ λ x e. Ensures-bind _ _ λ y f. Ensures-bind _ _ λ z g.
        Ensures-bind _ _ λ v i. returns (record {
          valid = validate_workflow_state-IsValid w p _ i;
          at_preflight = refl;
          in_progress = refl;
          unspent = refl;
          same_run = refl;
          same_target = refl;
        }))
      h

-- The target gate is a part of what no move changes.
target_of-identity : (s t : State) → identity_of t ≡ identity_of s → t.target_gate ≡ s.target_gate
target_of-identity s t e = ap (λ l. elim l [ a ∷ b ∷ c ∷ d ∷ r ↦ d | _ ↦ "" ]) e

-- The state `u` is where a run of `n` moves from `s` stands before its last move.
pub IsBeforeLast : World → Policy → ℕ → State → State → Type 0
IsBeforeLast w p n s u = ((n ≡ 1) × (u ≡ s)) ⊎ ((k : ℕ) × (n ≡ k + 1) × Advances w p k s u)

-- The last move of a run completed it from the target gate, which had passed.
pub record IsCompleted (w : World) (p : Policy) (n : ℕ) (s t : State) : Type 0 where
  pub last : State
  pub move : Move
  pub on_run : IsBeforeLast w p n s last
  pub completing : advance_workflow_state w p last move ≡ ok t
  pub same : identity_of last ≡ identity_of s
  pub at_gate : last.stage ≡ s.target_gate
  pub passed : workflow_target_passes w last ≡ ok true
  pub evidenced : verify_workflow_evidence w t ≡ ok tt

IsBeforeLast-then_on :
    (w : World) (p : Policy) (k : ℕ) (s u v : State) (m : Move)
    → advance_workflow_state w p s m ≡ ok u
    → IsBeforeLast w p k u v
    → IsBeforeLast w p (k + 1) s v
unfolding IsBeforeLast
IsBeforeLast-then_on w p k s u v m h (inl (e, f)) = inr (1, ap (λ j. j + 1) e, once m (rw f h))
IsBeforeLast-then_on w p k s u v m h (inr (j, e, r)) = inr (j + 1, ap (λ i. i + 1) e, then_on m h r)

Advances-complete :
    (w : World) (p : Policy) (n : ℕ) (s t : State)
    → Advances w p n s t
    → t.status ≡ "complete"
    → IsCompleted w p n s t
unfolding IsBeforeLast
Advances-complete w p n s t (once m h) c =
    let q = advance_workflow_state_complete w p s t m h c in
    record {
      last = s;
      move = m;
      on_run = inl (refl, refl);
      completing = h;
      same = refl;
      at_gate = q.0;
      passed = q.1;
      evidenced = q.2;
    }
Advances-complete w p n s t (then_on {n = k} {u} m h r) c =
    let q = Advances-complete w p k u t r c in
    let i = (advance_workflow_state-IsLegalStep w p s u m h).identity in
    record {
      last = q.last;
      move = q.move;
      on_run = IsBeforeLast-then_on w p k s u q.last m h q.on_run;
      completing = q.completing;
      same = q.same ∙ i;
      at_gate = q.at_gate ∙ target_of-identity s u i;
      passed = q.passed;
      evidenced = q.evidenced;
    }

-- A run of moves from a started workflow is within the policy's transitions and one more, if the
-- stage `complete` asks for no reviewer.
pub new_workflow_state-bounded :
    (w : World) (p : Policy) (a : Start) (s t : State) (n : ℕ)
    → needs_reviewer p "complete" ≡ false
    → new_workflow_state w p a ≡ ok s
    → Advances w p n s t
    → n ≤ p.max_transitions + 1
new_workflow_state-bounded w p a s t n q h r = let i = Advances-bounded w p n s t q r in omega arith

-- If a workflow started for a target gate is complete after a run of moves, then its last move
-- completed it from a state of that run, which has all that identifies the run and stood at the target
-- gate it was started for, where `workflow_target_passes` held: the verified ledger shows the gate as
-- passed for the exact package of that state. The evidence of the completed state verifies too.
pub new_workflow_state_complete :
    (w : World) (p : Policy) (a : Start) (s t : State) (n : ℕ)
    → new_workflow_state w p a ≡ ok s
    → Advances w p n s t
    → t.status ≡ "complete"
    → (s.run_id ≡ a.run_id) × (s.target_gate ≡ a.target_gate) × IsCompleted w p n s t
new_workflow_state_complete w p a s t n h r c =
    let b = new_workflow_state-IsStarted w p a s h in
    (b.same_run, b.same_target, Advances-complete w p n s t r c)
