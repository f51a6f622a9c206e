-- ===== src/Workflow/Bounded.antt =====
-- Runs of `advance_workflow_state`: what holds after each, and how long they are.
use the_pass.Prelude.{
  ℕ, ◌+◌, ◌≤◌, Bool, true, false, ◌&&◌, ◌||◌, ◌≡◌, sym, ap, ◌∙◌, arith, str_eq, eq_iff, mem_text,
  inl, inr, ◌⊎◌,
}
use the_pass.Prelude.Result.{ok}
use the_pass.Workflow.State.{Policy, World, State, needs_reviewer}
use the_pass.Workflow.Checks.{Move, transitions_from, is_exhausted, is_terminal}
use the_pass.Workflow.Advance.{advance_workflow_state}
use the_pass.Workflow.Evidence.{workflow_target_passes, verify_workflow_evidence}
use the_pass.Workflow.Valid.{IsValid}
use the_pass.Workflow.Progress.{IsMoved, exhausted, unreviewed, made, identity_of}
use the_pass.Workflow.Legal.{is_closed, IsLegal, IsAdvance, advance_workflow_state-IsAdvance}

-- The state keeps what identifies the run, satisfies the checks, and stays or takes a transition
-- that the policy lists.
pub record IsLegalStep (w : World) (p : Policy) (s t : State) : Type 0 where
  pub valid : IsValid w p t
  pub identity : identity_of t ≡ identity_of s
  pub allowed : (t.stage ≡ s.stage) ⊎ (mem_text t.stage (transitions_from p s.stage) ≡ true)

stage-allowed :
    (w : World) (p : Policy) (s : State) (m : Move) (t : State)
    → IsMoved w p s m t
    → IsLegal w p s m
    → (t.stage ≡ s.stage) ⊎ (mem_text t.stage (transitions_from p s.stage) ≡ true)
stage-allowed w p s m t (exhausted e f g) l = inl e
stage-allowed w p s m t (unreviewed e f g) l = inl e
stage-allowed w p s m t (made e f v) l = elim l.allowed [
  | inl q ↦ inl (e ∙ q)
  | inr q ↦ inr (ap (λ x. mem_text x (transitions_from p s.stage)) e ∙ q)
]

-- Every state that `advance_workflow_state` returns satisfies the checks of a workflow state, has
-- the run, owners, target gate, start and ledger of the state it came from, and is at the same stage
-- or at one that the policy lists as a transition of it.
pub advance_workflow_state-IsLegalStep :
    (w : World) (p : Policy) (s t : State) (m : Move)
    → advance_workflow_state w p s m ≡ ok t
    → IsLegalStep w p s t
advance_workflow_state-IsLegalStep w p s t m h =
    let a = advance_workflow_state-IsAdvance w p s t m h in
    record {
      valid = a.spent.valid;
      identity = a.spent.identity;
      allowed = stage-allowed w p s m t a.spent.moved a.legal;
    }

-- A state that `advance_workflow_state` returns as complete came from the target gate, which the
-- verified ledger shows as passed for the exact package, and its own evidence verifies.
pub advance_workflow_state_complete :
    (w : World) (p : Policy) (s t : State) (m : Move)
    → advance_workflow_state w p s m ≡ ok t
    → t.status ≡ "complete"
    → (s.stage ≡ s.target_gate)
      × (workflow_target_passes w s ≡ ok true)
      × (verify_workflow_evidence w t ≡ ok tt)
advance_workflow_state_complete w p s t m h c =
    let a = advance_workflow_state-IsAdvance w p s t m h in
    elim a.spent.moved [
      | exhausted e f g ↦ let x = sym f ∙ c in cc
      | unreviewed e f g ↦ let x = sym f ∙ c in cc
      | made e f v ↦ let q = a.legal.passed (a.legal.completes.0 (sym f ∙ c)) in (q.0, q.1, v)
    ]

-- A run of moves that are all made.
pub data Advances (w : World) (p : Policy) : ℕ → State → State → Type 0 where
  once : {s t : State} (m : Move) → advance_workflow_state w p s m ≡ ok t → Advances w p 1 s t
  then_on :
      {n : ℕ} {s u t : State} (m : Move)
      → advance_workflow_state w p s m ≡ ok u
      → Advances w p n u t
      → Advances w p (n + 1) s t

Advances-not_closed :
    {w : World} {p : Policy} {n : ℕ} {s t : State} → Advances w p n s t → is_closed p s ≡ false
Advances-not_closed {w} {p} (once m h) = (advance_workflow_state-IsAdvance w p _ _ m h).not_closed
Advances-not_closed {w} {p} (then_on m h r) =
    (advance_workflow_state-IsAdvance w p _ _ m h).not_closed

exhausted-closed :
    (p : Policy) (s : State) → s.status ≡ "blocked" → is_exhausted p s ≡ true → is_closed p s ≡ true
exhausted-closed p s e x = both (is_terminal s.status) _ _ ((eq_iff s.status "blocked").1 e) x
  where
    both : (a b c : Bool) → b ≡ true → c ≡ true → (a || (b && c)) ≡ true
    both a b c f g = ground arith

complete-closed : (p : Policy) (s : State) → s.status ≡ "complete" → is_closed p s ≡ true
complete-closed p s e = second (str_eq s.status "killed") _ _ ((eq_iff s.status "complete").1 e)
  where
    second : (a b c : Bool) → b ≡ true → (a || b || c) ≡ true
    second a b c f = ground arith

-- A move that the next move does not find closed has counted a transition.
spent_one :
    (w : World) (p : Policy) (s u : State) (m : Move)
    → needs_reviewer p "complete" ≡ false
    → IsAdvance w p s m u
    → is_closed p u ≡ false
    → u.transitions_used ≡ s.transitions_used + 1
spent_one w p s u m n a c = elim a.spent.spent [
  | inl e ↦ e
  | inr (inl e) ↦ elim a.spent.moved [
    | exhausted f g h ↦ let x = exhausted-closed p u g h in cc
    | unreviewed f g h ↦ let x = ap (needs_reviewer p) (sym e) ∙ h in cc
    | made f g v ↦ let x = complete-closed p u (g ∙ a.legal.completes.1 e) in cc
  ]
  | inr (inr e) ↦ let x = exhausted-closed p u e.0 e.1 in cc
]

-- If the stage `complete` asks for no reviewer, a run of moves from a state has at most as many
-- as the policy's transitions that the state has left, and one more.
pub Advances-bounded :
    (w : World) (p : Policy) (n : ℕ) (s t : State)
    → needs_reviewer p "complete" ≡ false
    → Advances w p n s t
    → n + s.transitions_used ≤ p.max_transitions + 1
Advances-bounded w p n s t q (once m h) =
    let a = (advance_workflow_state-IsAdvance w p _ _ m h).was_valid.within_transitions in
    omega arith
Advances-bounded w p n s t q (then_on {n = k} {u} m h r) =
    let e =
      spent_one w p _ u m q (advance_workflow_state-IsAdvance w p _ _ m h)
        (Advances-not_closed r) in
    let i = Advances-bounded w p k u _ q r in omega arith
