-- ===== src/Workflow/PolicyLaws.antt =====
-- What a policy document that passes the checks guarantees.
use the_pass.Prelude.{
  String, Bool, true, false, List, [], ◌∷◌, ◌≡◌, refl, sym, arith, any_of, all_of, mem_text, str_eq,
  eq_iff, ap, not-eq-false, none, some, keys, &&-eq-true, Bool-cases, inl, inr, ||-eq-false,
}
use the_pass.Prelude.Result.{ok, ◌>>=◌, >>-eq-ok, raise_if-eq-ok}
use the_pass.Json.{
  Value, null, boolean, is_true, text, array, end, object, Fields, nil, field, get, is_text,
  is_false, value_eq, list_of, as_object, keys_of, values_of, texts, object_at,
}
use the_pass.Json.Equality.{value_eq→eq}
use the_pass.Workflow.Reach.{transitions_of, reachable_stages}
use the_pass.Workflow.Reached.{IsReached}
use the_pass.Workflow.Fuel.{IsClosed, reachable_stages-exact}
use the_pass.Workflow.Policy.{
  is_name_in, covers, check_stage, check_stages, check_graph, check_runtime, check_safety,
  stage_graph, validate_pipeline_policy,
}

keys-stage_graph : (stages : Fields) → keys (stage_graph stages) ≡ keys_of stages
keys-stage_graph nil = refl
keys-stage_graph (field n v r) = rw (keys-stage_graph r)

all_of-mem :
    (p : String → Bool) (xs : List String) (x : String)
    → all_of p xs ≡ true
    → mem_text x xs ≡ true
    → p x ≡ true
all_of-mem p [] x h m = cc
all_of-mem p (y ∷ xs) x h m = elim (Bool-cases (str_eq x y)) [
  | inl e ↦ rw ((eq_iff x y).0 e) (&&-eq-true (p y) (all_of p xs) h).0
  | inr e ↦ all_of-mem p xs x (&&-eq-true (p y) (all_of p xs) h).1 (tail e)
]
  where
    tail : str_eq x y ≡ false → mem_text x xs ≡ true
    tail e = ground arith

-- The texts of a list of names are names.
texts-names :
    (names : List String) (vs : List Value) (d : String)
    → all_of (is_name_in names) vs ≡ true
    → mem_text d (texts vs) ≡ true
    → mem_text d names ≡ true
texts-names names [] d h m = cc
texts-names names (text t ∷ vs) d h m = elim (Bool-cases (str_eq d t)) [
  | inl e ↦ rw ((eq_iff d t).0 e) (&&-eq-true (mem_text t names) _ h).0
  | inr e ↦ texts-names names vs d (&&-eq-true (mem_text t names) _ h).1 (rest e)
]
  where
    rest : str_eq d t ≡ false → mem_text d (texts vs) ≡ true
    rest e = ground arith
texts-names names (null ∷ vs) d h m = cc
texts-names names (v ∷ vs) d h m = cc

-- The transitions of a stage that passed its check are names of stages.
check_stage-transitions :
    (skills contracts names : List String) (v : Value)
    → check_stage skills contracts names v ≡ ok tt
    → all_of
        (is_name_in names)
        (list_of (elim (as_object v) [ none ↦ null | some s ↦ get "transitions" s ]))
      ≡ true
unfolding check_stage ◌>>=◌
check_stage-transitions skills contracts names (object s) h = ground arith
check_stage-transitions skills contracts names _ h = cc

check_stages-closed :
    (skills contracts names : List String) (stages : Fields) (s d : String)
    → check_stages skills contracts names (values_of stages) ≡ ok tt
    → mem_text d (transitions_of (stage_graph stages) s) ≡ true
    → mem_text d names ≡ true
unfolding check_stages
check_stages-closed skills contracts names nil s d h m = cc
check_stages-closed skills contracts names (field n v r) s d h m =
    let p = >>-eq-ok (check_stage skills contracts names v) _ h in
    elim (Bool-cases (str_eq s n)) [
      | inl e ↦
          texts-names names _ d (check_stage-transitions skills contracts names v p.0)
            (rw (e, transitions_of) at m)
      | inr e ↦ check_stages-closed skills contracts names r s d p.1 (rw (e, transitions_of) at m)
    ]

-- The flags of the policy's safety boundary that must be off.
abbrev pub forbidden_flags : List String
forbidden_flags =
    "live_gate_target_allowed" ∷ "live_gate_pass_transition_allowed" ∷ "gate_decision_retryable"
    ∷ "real_order_transport_allowed" ∷ "credentials_allowed" ∷ []

-- The live gate is the forbidden target and none of the targets, every target is a stage that a
-- chain of transitions from `preflight` leads to, and so is every stage; `complete` ends. Each flag
-- of the safety boundary is off, and the paper process is isolated.
pub record IsSafePolicy (document : Fields) : Type 0 where
  pub live_forbidden : get "forbidden_target" (object_at "runtime" document) ≡ text "live_gate"
  pub no_live_target :
      any_of (is_text "live_gate") (list_of (get "target_gates" (object_at "runtime" document)))
      ≡ false
  pub complete_is_terminal :
      get "transitions" (object_at "complete" (object_at "stages" document)) ≡ array end
  pub every_stage_reached :
      (name : String)
      → mem_text name (keys_of (object_at "stages" document)) ≡ true
      → IsReached (stage_graph (object_at "stages" document)) name
  pub every_target_reached :
      (gate : String)
      → mem_text gate (texts (list_of (get "target_gates" (object_at "runtime" document)))) ≡ true
      → IsReached (stage_graph (object_at "stages" document)) gate
  pub flags_off :
      (flag : String)
      → mem_text flag forbidden_flags ≡ true
      → get flag (object_at "safety" document) ≡ boolean false
  pub paper_isolated : get "paper_process_isolated" (object_at "safety" document) ≡ boolean true

is_text-eq : (t : String) (v : Value) → is_text t v ≡ true → v ≡ text t
is_text-eq t (text s) h = ap text (sym ((eq_iff t s).0 h))
is_text-eq t _ h = cc

is_false-eq : (v : Value) → is_false v ≡ true → v ≡ boolean false
is_false-eq (boolean false) h = refl
is_false-eq _ h = cc

is_true-eq : (v : Value) → is_true v ≡ true → v ≡ boolean true
is_true-eq (boolean true) h = refl
is_true-eq _ h = cc

check_runtime-live :
    (document : Fields)
    → check_runtime document ≡ ok tt
    → (is_text "live_gate" (get "forbidden_target" (object_at "runtime" document)) ≡ true)
      × (any_of (is_text "live_gate") (list_of (get "target_gates" (object_at "runtime" document)))
          ≡ false)
unfolding check_runtime
check_runtime-live document h =
    let p = >>-eq-ok _ _ h in
    let q = >>-eq-ok _ _ p.1 in
    let r = ||-eq-false _ _ (raise_if-eq-ok _ _ q.0) in (not-eq-false _ r.0, r.1)

check_graph-parts :
    (document : Fields)
    → check_graph document ≡ ok tt
    → (value_eq (get "transitions" (object_at "complete" (object_at "stages" document))) (array end)
        ≡ true)
      × (covers
            (keys_of (object_at "stages" document))
            (reachable_stages (stage_graph (object_at "stages" document)))
          ≡ true)
      × (all_of
            (is_name_in (keys_of (object_at "stages" document)))
            (list_of (get "target_gates" (object_at "runtime" document)))
          ≡ true)
unfolding check_graph
check_graph-parts document h =
    let p = >>-eq-ok _ _ h in
    let q = >>-eq-ok _ _ p.1 in
    (
      not-eq-false _ (raise_if-eq-ok _ _ p.0),
      not-eq-false _ (raise_if-eq-ok _ _ q.1),
      not-eq-false _ (raise_if-eq-ok _ _ q.0),
    )

check_safety-parts :
    (document : Fields)
    → check_safety document ≡ ok tt
    → (all_of (λ k. is_false (get k (object_at "safety" document))) forbidden_flags ≡ true)
      × (is_true (get "paper_process_isolated" (object_at "safety" document)) ≡ true)
unfolding check_safety
check_safety-parts document h =
    let p = >>-eq-ok _ _ h in
    (not-eq-false _ (raise_if-eq-ok _ _ p.0), not-eq-false _ (raise_if-eq-ok _ _ p.1))

-- The live gate is the forbidden target of a policy document that passes every check, and is not
-- listed as a target. Each stage, and each target gate, is reached from `preflight` by a chain of
-- transitions, and `complete` has none. Each of the five flags of the safety boundary is false: a
-- live target, a live-gate pass, a retried gate decision, real orders and credentials. The paper
-- process is isolated.
pub validate_pipeline_policy-safe :
    (document : Fields) → validate_pipeline_policy document ≡ ok tt → IsSafePolicy document
unfolding validate_pipeline_policy
validate_pipeline_policy-safe document h =
    let a = >>-eq-ok _ _ h in
    let b = >>-eq-ok _ _ a.1 in
    let c = >>-eq-ok _ _ b.1 in
    let d = >>-eq-ok _ _ c.1 in
    let e = >>-eq-ok _ _ d.1 in
    let f = >>-eq-ok _ _ e.1 in
    let g = >>-eq-ok _ _ f.1 in
    let graph = check_graph-parts document g.0 in
    let safe = check_safety-parts document g.1 in
    let live = check_runtime-live document b.0 in
    let reached : (n : String)
        → mem_text n (keys_of (object_at "stages" document)) ≡ true
        → IsReached (stage_graph (object_at "stages" document)) n =
      λ n i.
        (reachable_stages-exact (stage_graph (object_at "stages" document)) n
            (closed document f.0)).0
          (all_of-mem _ (keys_of (object_at "stages" document)) n (&&-eq-true _ _ graph.1).0 i) in
    record {
      live_forbidden = is_text-eq _ _ live.0;
      no_live_target = live.1;
      complete_is_terminal = value_eq→eq _ _ graph.0;
      every_stage_reached = reached;
      every_target_reached = λ n i. reached n (texts-names _ _ n graph.2 i);
      flags_off = λ k i. is_false-eq _ (
          all_of-mem (λ f. is_false (get f (object_at "safety" document))) forbidden_flags k safe.0
            i);
      paper_isolated = is_true-eq _ safe.1;
    }
  where
    closed :
        (document : Fields)
        → check_stages
            (keys_of (object_at "public_skills" document))
            (keys_of (object_at "cli_contracts" document))
            (keys_of (object_at "stages" document))
            (values_of (object_at "stages" document))
          ≡ ok tt
        → IsClosed (stage_graph (object_at "stages" document))
    closed doc p s d m =
        rw (keys-stage_graph (object_at "stages" doc))
          (check_stages-closed _ _ _ (object_at "stages" doc) s d p m)
