-- ===== src/Workflow/Valid.antt =====
-- What a workflow state that passes `validate_workflow_state` satisfies.
use the_pass.Prelude.{
  ℕ, ◌≤◌, String, Bool, true, false, not, ◌&&◌, Option, none, some, ◌≡◌, ◌≢◌, ◌↔◌, refl, sym, ◌∙◌,
  arith, str_eq, eq_iff, mem_text, keys, ltb, is_nil, any_of, is_blank, is_empty, ||-eq-false,
}
use the_pass.Prelude.Result.{ok, >>-eq-ok, raise_if-eq-ok, Ensures, Ensures-bind, returns}
use the_pass.Workflow.State.{
  Policy, World, State, same, some_is, required_texts, is_none, are_ordered, needs_reason,
  needs_reviewer, is_independent, validate_workflow_state,
}
use the_pass.Workflow.Advance.{validated}

-- A reviewer who is neither of the owners.
pub record HasIndependentReviewer (s : State) : Type 0 where
  pub name : String
  pub is_reviewer : s.reviewer ≡ some name
  pub not_strategy_owner : name ≢ s.strategy_owner
  pub not_run_owner : name ≢ s.run_owner

pub record IsValid (w : World) (p : Policy) (s : State) : Type 0 where
  pub not_forbidden : s.target_gate ≢ p.forbidden_target
  pub known_target : mem_text s.target_gate p.target_gates ≡ true
  pub known_stage : mem_text s.stage (keys p.stages) ≡ true
  pub known_status : mem_text s.status p.statuses ≡ true
  pub filled : any_of is_blank (required_texts s) ≡ false
  pub reviewer_named : some_is is_blank s.reviewer ≡ false
  pub within_transitions : s.transitions_used ≤ p.max_transitions
  pub within_laps : s.remediation_laps ≤ p.max_remediation_laps
  pub within_no_progress : s.no_progress_laps ≤ p.max_no_progress
  pub evidence_filled : any_of is_empty s.evidence_paths ≡ false
  pub blockers_filled : any_of is_empty s.blockers ≡ false
  pub explained : needs_reason s.status ≡ true → is_nil s.blockers ≡ false
  pub complete_together : (s.stage ≡ "complete") ↔ (s.status ≡ "complete")
  pub ordered : are_ordered (w.parse_timestamp s.started_at) (w.parse_timestamp s.updated_at) ≡ true
  pub reviewed : needs_reviewer p s.stage ≡ true → HasIndependentReviewer s
  pub package_filled :
      (some_is is_empty s.package_path ≡ false) × (some_is is_empty s.package_id ≡ false)
  pub package_together : is_none s.package_path ≡ is_none s.package_id

str_eq-false : (s t : String) → str_eq s t ≡ false → s ≢ t
str_eq-false s t h e = let q = (eq_iff s t).1 e in cc

same-eq : (a b : Bool) → same a b ≡ true → a ≡ b
same-eq true b h = sym h
same-eq false true h = cc
same-eq false false h = refl

together : (s t u v : String) → same (str_eq s u) (str_eq t v) ≡ true → (s ≡ u) ↔ (t ≡ v)
together s t u v h =
    let b = same-eq _ _ h in
    (λ a. (eq_iff t v).0 (sym b ∙ (eq_iff s u).1 a), λ a. (eq_iff s u).0 (b ∙ (eq_iff t v).1 a))

true_of_not : {b : Bool} → not b ≡ false → b ≡ true
true_of_not {b} h = ground arith

reviewer_of :
    (s : State) (r : Option String)
    → s.reviewer ≡ r
    → is_independent s r ≡ true
    → HasIndependentReviewer s
reviewer_of s none e h = cc
reviewer_of s (some n) e h =
    let p = ||-eq-false _ _ (not_true h) in
    record {
      name = n;
      is_reviewer = e;
      not_strategy_owner = str_eq-false _ _ p.0;
      not_run_owner = str_eq-false _ _ p.1;
    }
  where
    not_true : {b : Bool} → not b ≡ true → b ≡ false
    not_true {b} e = ground arith

-- A state that passes the checks satisfies each of them.
pub validate_workflow_state-IsValid :
    (w : World) (p : Policy) (s : State) → validate_workflow_state w p s ≡ ok tt → IsValid w p s
unfolding validate_workflow_state
validate_workflow_state-IsValid w p s h =
    let h1 = >>-eq-ok _ _ h in
    let h2 = >>-eq-ok _ _ h1.1 in
    let h3 = >>-eq-ok _ _ h2.1 in
    let h4 = >>-eq-ok _ _ h3.1 in
    let h5 = >>-eq-ok _ _ h4.1 in
    let h6 = >>-eq-ok _ _ h5.1 in
    let h7 = >>-eq-ok _ _ h6.1 in
    let h8 = >>-eq-ok _ _ h7.1 in
    let h9 = >>-eq-ok _ _ h8.1 in
    let h10 = >>-eq-ok _ _ h9.1 in
    let h11 = >>-eq-ok _ _ h10.1 in
    let h12 = >>-eq-ok _ _ h11.1 in
    let h13 = >>-eq-ok _ _ h12.1 in
    let h14 = >>-eq-ok _ _ h13.1 in
    let h15 = >>-eq-ok _ _ h14.1 in
    let h16 = >>-eq-ok _ _ h15.1 in
    record {
      not_forbidden = str_eq-false _ _ (raise_if-eq-ok _ _ h1.0);
      known_target = true_of_not (raise_if-eq-ok _ _ h2.0);
      known_stage = true_of_not (raise_if-eq-ok _ _ h3.0);
      known_status = true_of_not (raise_if-eq-ok _ _ h4.0);
      filled = raise_if-eq-ok _ _ h5.0;
      reviewer_named = raise_if-eq-ok _ _ h6.0;
      within_transitions = ltb-false _ _ (raise_if-eq-ok _ _ h7.0);
      within_laps = ltb-false _ _ (raise_if-eq-ok _ _ h8.0);
      within_no_progress = ltb-false _ _ (raise_if-eq-ok _ _ h9.0);
      evidence_filled = raise_if-eq-ok _ _ h10.0;
      blockers_filled = raise_if-eq-ok _ _ h11.0;
      explained = λ n. and_false n (raise_if-eq-ok _ _ h12.0);
      complete_together = together _ _ _ _ (true_of_not (raise_if-eq-ok _ _ h13.0));
      ordered = true_of_not (raise_if-eq-ok _ _ h14.0);
      reviewed =
          λ n. reviewer_of s s.reviewer refl (true_of_not (and_false n (raise_if-eq-ok _ _ h15.0)));
      package_filled = ||-eq-false _ _ (raise_if-eq-ok _ _ h16.0);
      package_together = same-eq _ _ (true_of_not (raise_if-eq-ok _ _ h16.1));
    }
  where
    ltb-false : (m n : ℕ) → ltb m n ≡ false → n ≤ m
    ltb-false m n e = ground arith

    and_false : {a b : Bool} → a ≡ true → (a && b) ≡ false → b ≡ false
    and_false {a} {b} e f = ground arith

-- What is checked last is valid.
pub validated-IsValid :
    (w : World) (p : Policy) (s : State) → Ensures (IsValid w p) (validated w p s)
validated-IsValid w p s = Ensures-bind _ _ λ a e. returns (validate_workflow_state-IsValid w p s e)
