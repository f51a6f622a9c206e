-- ===== src/Gates/Passing.antt =====
-- What a decision of `evaluate_gate` says, at every gate.
use Prim.Native.String.{◌++◌ as text_append}
use the_pass.Prelude.{
  String, true, false, ◌||◌, List, [], ◌∷◌, ◌++◌, ◌≡◌, inl, inr, refl, sym, ap, is_nil, str_eq,
  eq_iff, if◌then◌else◌, Bool-cases,
}
use the_pass.Prelude.Result.{
  Result, ok, raise, >>=-eq-ok, Ensures, returns, raises, Ensures-bind, Ensures-of,
}
use the_pass.Json.{texts, null, Fields, get, list_of, text_or_empty}
use the_pass.Ledger.Host.{Host, GateRequest}
use the_pass.Ledger.Issues.{LedgerError}
use the_pass.Ledger.RunEntry.{build_run_entry}
use the_pass.Gates.GateWorld.{GateWorld, GateError, of_ledger}
use the_pass.Gates.Evidence.{Review}
use the_pass.Gates.Judgement.{Outcome, pass_unless, weigh_research, judge_research}
use the_pass.Gates.PaperGate.{judge_paper}
use the_pass.Gates.RiskGate.{judge_risk}
use the_pass.Gates.Evaluate.{
  GateEvaluation, required_verdict, review_gate, judge_outcome, decision_of, exit_code_of,
  evaluate_gate,
}

-- The package id of a run entry.
abbrev pub id_of : Fields → String
id_of run_entry = text_or_empty (get "package_id" run_entry)

-- The steps of an evaluation that returned.
pub record Evaluated (w : GateWorld) (v : Host) (r : GateRequest) (e : GateEvaluation)
    : Type 0 where
  pub policy : Fields
  pub run_entry : Fields
  pub verdict : Fields
  pub review : Review
  pub outcome : Outcome
  pub summaries : List Fields
  pub builds : build_run_entry w.host r.package_dir null r.ledger_path ≡ ok run_entry
  pub reads : required_verdict w r.package_dir ≡ ok verdict
  pub reviews : review_gate w r (id_of run_entry) ≡ ok review
  pub judges :
      judge_outcome w v r policy run_entry verdict (id_of run_entry) review.blockers ≡ ok outcome
  pub decides : e.decision ≡ decision_of w r policy (id_of run_entry) review outcome summaries
  pub exits : e.exit_code ≡ exit_code_of r.gate outcome.result

pub of_ledger-eq-ok {ℓ} :
    {A : Type ℓ} (m : Result LedgerError A) {a : A} → of_ledger m ≡ ok a → m ≡ ok a
of_ledger-eq-ok (ok b) h = cc
of_ledger-eq-ok (raise x) h = cc

pub evaluate_gate-Evaluated :
    (w : GateWorld) (v : Host) (r : GateRequest) (e : GateEvaluation)
    → evaluate_gate w v r ≡ ok e
    → Evaluated w v r e
unfolding evaluate_gate
evaluate_gate-Evaluated w v r e h =
    let a = >>=-eq-ok _ _ h in
    let b = >>=-eq-ok _ _ a.2 in
    let c = >>=-eq-ok _ _ b.2 in
    let d = >>=-eq-ok _ _ c.2 in
    let f = >>=-eq-ok _ _ d.2 in
    let g = >>=-eq-ok _ _ f.2 in
    let q = ok-injective _ _ g.2 in
    record {
      policy = a.0;
      run_entry = b.0;
      verdict = c.0;
      review = d.0;
      outcome = f.0;
      summaries = g.0;
      builds = of_ledger-eq-ok _ b.1;
      reads = c.1;
      reviews = of_ledger-eq-ok _ d.1;
      judges = f.1;
      decides = sym (ap (λ x. x.decision) q);
      exits = sym (ap (λ x. x.exit_code) q);
    }
  where
    ok-injective :
        (a b : GateEvaluation) → ◌≡◌ {A = Result GateError GateEvaluation} (ok a) (ok b) → a ≡ b
    ok-injective a b q = cc

-- A branch passes exactly when it has no blockers.
pub data IsWeighed (o : Outcome) : Type 0 where
  passed : o.result ≡ "pass" → o.blockers ≡ [] → IsWeighed o
  stopped : str_eq o.result "pass" ≡ false → is_nil o.blockers ≡ false → IsWeighed o

pub pass_unless-IsWeighed :
    (blockers : List String) (rows : List Fields)
    → IsWeighed (record { result = pass_unless blockers; blockers = blockers; rows = rows })
pass_unless-IsWeighed [] rows = passed refl refl
pass_unless-IsWeighed (t ∷ ts) rows = stopped refl refl

lift-IsWeighed :
    (m : Result LedgerError Outcome) → Ensures IsWeighed m → Ensures IsWeighed (of_ledger m)
lift-IsWeighed (ok o) e = returns (Ensures-of IsWeighed (ok o) e refl)
lift-IsWeighed (raise x) e = raises

judge_paper-IsWeighed :
    (w : GateWorld) (v : Host) (r : GateRequest) (id : String) (verdict : Fields)
    (review : List String)
    → Ensures IsWeighed (judge_paper w v r id verdict review)
unfolding judge_paper
judge_paper-IsWeighed w v r id verdict review = Ensures-bind _ _ λ audit _. Ensures-bind _ _ λ p _.
    Ensures-bind _ _ λ plan _.
      Ensures-bind _ _
        λ observation _. Ensures-bind _ _ λ divergence _. returns (pass_unless-IsWeighed _ _)

judge_risk-IsWeighed :
    (w : GateWorld) (v : Host) (r : GateRequest) (id : String) (run_entry : Fields)
    (review : List String)
    → Ensures IsWeighed (judge_risk w v r id run_entry review)
unfolding judge_risk
judge_risk-IsWeighed w v r id run_entry review = Ensures-bind _ _ λ audit _. Ensures-bind _ _ λ p _.
    Ensures-bind _ _ λ risk _.
      Ensures-bind _ _
        λ approval _. Ensures-bind _ _ λ config _. returns (pass_unless-IsWeighed _ _)

-- A verdict that ends the research is not a pass.
ends-not_pass :
    (state : String)
    → str_eq state "kill" || str_eq state "revise" || str_eq state "blocked" ≡ true
    → str_eq state "pass" ≡ false
ends-not_pass state h = elim (Bool-cases (str_eq state "pass")) [
  | inr q ↦ q
  | inl q ↦
      let e : state ≡ "pass" = (eq_iff state "pass").0 q in
      let f : str_eq "pass" "kill" || str_eq "pass" "revise" || str_eq "pass" "blocked" ≡ true =
        rw e at h in
      cc
]

ended-IsWeighed :
    (state : String) (blockers : List String)
    → str_eq state "pass" ≡ false
    → IsWeighed (record {
      result = state;
      blockers = if is_nil blockers then text_append "package verdict is " state ∷ [] else blockers;
      rows = [];
    })
ended-IsWeighed state [] h = stopped h refl
ended-IsWeighed state (t ∷ ts) h = stopped h refl

append-is_nil : (ts : List String) (t : String) → is_nil (ts ++ t ∷ []) ≡ false
append-is_nil [] t = refl
append-is_nil (s ∷ ts) t = refl

weigh_research-IsWeighed :
    (run_entry : Fields) (blockers : List String) (state : String)
    → IsWeighed (weigh_research run_entry blockers state)
unfolding weigh_research
weigh_research-IsWeighed run_entry blockers state =
    elim (Bool-cases (str_eq state "paper_candidate")) [
      | inl p ↦ rw (p, weigh_research) (pass_unless-IsWeighed blockers [])
      | inr p ↦
          elim (Bool-cases
            (str_eq state "kill" || str_eq state "revise" || str_eq state "blocked")) [
              | inl q ↦
                  rw (p, q, weigh_research)
                    (ended-IsWeighed state
                      (blockers ++ texts (list_of (get "open_blockers" run_entry)))
                      (ends-not_pass state q))
              | inr q ↦ rw (p, q, weigh_research) (stopped refl (append-is_nil blockers _))
            ]
    ]

judge_research-IsWeighed :
    (w : GateWorld) (r : GateRequest) (run_entry verdict : Fields) (review : List String)
    → Ensures IsWeighed (judge_research w r run_entry verdict review)
unfolding judge_research
judge_research-IsWeighed w r run_entry verdict review = Ensures-bind _ _ λ findings _.
    Ensures-bind _ _ λ a _. Ensures-bind _ _ λ b _. returns (weigh_research-IsWeighed _ _ _)

pub judge_outcome-IsWeighed :
    (w : GateWorld) (v : Host) (r : GateRequest) (policy run_entry verdict : Fields) (id : String)
    (review : List String)
    → Ensures IsWeighed (judge_outcome w v r policy run_entry verdict id review)
unfolding judge_outcome
judge_outcome-IsWeighed w v r policy run_entry verdict id review =
    elim (Bool-cases (str_eq r.gate "research_gate")) [
      | inl p ↦ rw (p, judge_outcome) (judge_research-IsWeighed w r run_entry verdict review)
      | inr p ↦ elim (Bool-cases (str_eq r.gate "paper_gate")) [
        | inl q ↦
            rw (p, q, judge_outcome)
              (lift-IsWeighed _ (judge_paper-IsWeighed w v r id verdict review))
        | inr q ↦ elim (Bool-cases (str_eq r.gate "risk_review")) [
          | inl t ↦
              rw (p, q, t, judge_outcome)
                (lift-IsWeighed _ (judge_risk-IsWeighed w v r id run_entry review))
          | inr t ↦ rw (p, q, t, judge_outcome) (returns (stopped refl refl))
        ]
      ]
    ]
