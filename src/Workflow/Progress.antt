-- ===== src/Workflow/Progress.antt =====
-- What each advance leaves as it was, what it spends, and when it completes a workflow.
use the_pass.Prelude.{
  ℕ, ◌+◌, String, Bool, true, not, ◌&&◌, ◌||◌, Option, List, [], ◌∷◌, ◌≡◌, refl, arith, str_eq,
  eq_iff, leb, inl, inr, ◌⊎◌, if◌then◌else◌,
}
use the_pass.Prelude.Result.{ok, Ensures, Ensures-bind, returns, Ensures-branch, Ensures-map}
use the_pass.Workflow.State.{Policy, World, State, needs_reviewer, is_independent}
use the_pass.Workflow.Checks.{Move, destination, is_exhausted, is_remediation_attempt}
use the_pass.Workflow.Advance.{
  validated, finish_move, review_move, remediate_move, spend_transition, blocked_by,
  effective_reviewer, is_unnamed,
}
use the_pass.Workflow.Evidence.{verify_workflow_evidence}
use the_pass.Workflow.Valid.{IsValid, validate_workflow_state-IsValid}

-- The fields that no advance changes.
abbrev pub identity_of : State → List String
identity_of s =
    s.run_id ∷ s.strategy_id ∷ s.objective ∷ s.target_gate ∷ s.strategy_owner ∷ s.run_owner
    ∷ s.started_at ∷ s.ledger_path ∷ []

-- It stays where it was and is blocked, by a budget or for want of a reviewer, or makes the move.
pub data IsMoved (w : World) (p : Policy) (s : State) (m : Move) (t : State) : Type 0 where
  exhausted : t.stage ≡ s.stage → t.status ≡ "blocked" → is_exhausted p t ≡ true → IsMoved w p s m t
  unreviewed :
      t.stage ≡ s.stage
      → t.status ≡ "blocked"
      → needs_reviewer p (destination s m) ≡ true
      → IsMoved w p s m t
  made :
      t.stage ≡ destination s m
      → t.status ≡ m.status
      → verify_workflow_evidence w t ≡ ok tt
      → IsMoved w p s m t

-- What the phases of a move from `s` make of it, once they have counted `used` transitions.
pub record IsOutcome (w : World) (p : Policy) (s : State) (m : Move) (used : ℕ) (t : State)
    : Type 0 where
  pub valid : IsValid w p t
  pub identity : identity_of t ≡ identity_of s
  pub moved : IsMoved w p s m t
  pub used_up : t.transitions_used ≡ used

exhausted_transitions :
    (p : Policy) (s : State)
    → leb p.max_transitions s.transitions_used ≡ true
    → is_exhausted p s ≡ true
exhausted_transitions p s e = rw e refl

exhausted_laps :
    (p : Policy) (s : State)
    → leb p.max_remediation_laps s.remediation_laps ≡ true
    → is_exhausted p s ≡ true
exhausted_laps p s e = any_true (leb p.max_transitions s.transitions_used) _ _ e
  where
    any_true : (a b c : Bool) → b ≡ true → (a || b || c) ≡ true
    any_true a b c h = ground arith

exhausted_no_progress :
    (p : Policy) (s : State)
    → leb p.max_no_progress s.no_progress_laps ≡ true
    → is_exhausted p s ≡ true
exhausted_no_progress p s e =
    any_true (leb p.max_transitions s.transitions_used)
      (leb p.max_remediation_laps s.remediation_laps) _ e
  where
    any_true : (a b c : Bool) → c ≡ true → (a || b || c) ≡ true
    any_true a b c h = ground arith

-- A state that the phases pass on: `s` with other counters and another reviewer.
record IsPassed (s u : State) : Type 0 where
  pub identity : identity_of u ≡ identity_of s
  pub stage : u.stage ≡ s.stage

blocked-IsOutcome :
    (w : World) (p : Policy) (s : State) (m : Move) (u : State) (b n : String)
    → IsPassed s u
    → (is_exhausted p u ≡ true) ⊎ (needs_reviewer p (destination s m) ≡ true)
    → Ensures (IsOutcome w p s m u.transitions_used) (validated w p (blocked_by w m u b n))
blocked-IsOutcome w p s m u b n i why = Ensures-bind _ _ λ a e. returns (record {
  valid = validate_workflow_state-IsValid w p _ e;
  identity = i.identity;
  moved = elim why [ inl x ↦ exhausted i.stage refl x | inr n ↦ unreviewed i.stage refl n ];
  used_up = refl;
})

finish_move-IsOutcome :
    (w : World) (p : Policy) (s : State) (m : Move) (u : State) (r : Option String)
    → IsPassed s u
    → Ensures (IsOutcome w p s m u.transitions_used) (finish_move w p s m u r)
unfolding finish_move
finish_move-IsOutcome w p s m u r i = Ensures-bind _ _ λ a e. Ensures-bind _ _ λ b f.
    Ensures-bind _ _ λ c g. Ensures-bind _ _ λ d h. returns (record {
      valid = validate_workflow_state-IsValid w p _ g;
      identity = i.identity;
      moved = made refl refl h;
      used_up = refl;
    })

review_move-IsOutcome :
    (w : World) (p : Policy) (s : State) (m : Move) (u : State)
    → IsPassed s u
    → Ensures (IsOutcome w p s m u.transitions_used) (review_move w p s m u)
unfolding review_move
review_move-IsOutcome w p s m u i =
    Ensures-branch (needs_reviewer p (destination s m)) _ _
      (λ e.
        Ensures-branch
          (is_independent s (effective_reviewer s m) && not (is_unnamed (effective_reviewer s m))) _
          _ (λ f. finish_move-IsOutcome w p s m u _ i)
          (λ f.
            blocked-IsOutcome w p s m (record u { reviewer = effective_reviewer s m }) _ _
              (record { identity = i.identity; stage = i.stage }) (inr e)))
      (λ e. finish_move-IsOutcome w p s m u _ i)

remediate_move-IsOutcome :
    (w : World) (p : Policy) (s : State) (m : Move) (u : State)
    → IsPassed s u
    → Ensures (IsOutcome w p s m u.transitions_used) (remediate_move w p s m u)
unfolding remediate_move
remediate_move-IsOutcome w p s m u i =
    Ensures-branch (is_remediation_attempt s m) _ _
      (λ e.
        Ensures-branch (leb p.max_remediation_laps u.remediation_laps) _ _
          (λ f. blocked-IsOutcome w p s m u _ _ i (inl (exhausted_laps p u f)))
          (λ f.
            Ensures-branch
              (leb p.max_no_progress (if m.moved_gate then 0 else u.no_progress_laps + 1)) _ _
              (λ g. blocked-IsOutcome w p s m _ _ _ lap (
                inl (
                  exhausted_no_progress p
                    (record u {
                      remediation_laps = u.remediation_laps + 1;
                      no_progress_laps = if m.moved_gate then 0 else u.no_progress_laps + 1;
                    })
                    g)))
              (λ g. review_move-IsOutcome w p s m _ lap)))
      (λ e. review_move-IsOutcome w p s m u i)
  where
    lap : {a b : ℕ} → IsPassed s (record u { remediation_laps = a; no_progress_laps = b })
    lap = record { identity = i.identity; stage = i.stage }

-- The transition is counted, unless the move completes the workflow or none is left.
pub record IsSpent (w : World) (p : Policy) (s : State) (m : Move) (t : State) : Type 0 where
  pub valid : IsValid w p t
  pub identity : identity_of t ≡ identity_of s
  pub moved : IsMoved w p s m t
  pub spent :
      (t.transitions_used ≡ s.transitions_used + 1)
      ⊎ (destination s m ≡ "complete")
      ⊎ ((t.status ≡ "blocked") × (is_exhausted p t ≡ true))

pub spend_transition-IsSpent :
    (w : World) (p : Policy) (s : State) (m : Move)
    → Ensures (IsSpent w p s m) (spend_transition w p s m)
unfolding spend_transition
spend_transition-IsSpent w p s m =
    Ensures-branch (str_eq (destination s m) "complete") _ _
      (λ e.
        Ensures-map (remediate_move-IsOutcome w p s m s (record { identity = refl; stage = refl }))
          λ t o. record {
            valid = o.valid;
            identity = o.identity;
            moved = o.moved;
            spent = inr (inl ((eq_iff _ _).0 e));
          })
      (λ e.
        Ensures-branch (leb p.max_transitions s.transitions_used) _ _
          (λ f. Ensures-bind _ _ λ a g. returns (record {
            valid = validate_workflow_state-IsValid w p _ g;
            identity = refl;
            moved = exhausted refl refl (exhausted_transitions p s f);
            spent = inr (inr (refl, exhausted_transitions p s f));
          }))
          (λ f.
            Ensures-map
              (remediate_move-IsOutcome w p s m
                (record s { transitions_used = s.transitions_used + 1 })
                (record { identity = refl; stage = refl }))
              λ t o. record {
                valid = o.valid;
                identity = o.identity;
                moved = o.moved;
                spent = inl o.used_up;
              }))
