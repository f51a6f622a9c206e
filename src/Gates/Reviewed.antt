-- ===== src/Gates/Reviewed.antt =====
-- A gate that passes has a review without blockers.
use Prim.Native.String.{◌++◌ as text_append}
use the_pass.Prelude.{
  String, false, ◌||◌, List, [], ◌∷◌, ◌++◌, ◌≡◌, inl, inr, refl, ap, ◌∙◌, is_nil, str_eq,
  if◌then◌else◌, Bool-cases,
}
use the_pass.Prelude.Result.{Result, ok, >>=-eq-ok, >>-eq-ok}
use the_pass.Json.{Fields, get, list_of, texts, text_or_empty}
use the_pass.Ledger.Host.{Host, GateRequest}
use the_pass.Gates.GateWorld.{GateWorld, GateError}
use the_pass.Gates.Judgement.{Outcome, weigh_research, judge_research, judge_live}
use the_pass.Gates.Evaluate.{judge_outcome}
use the_pass.Gates.Passing.{of_ledger-eq-ok}
use the_pass.Gates.Requirements.{judge_paper-PaperRequirements, judge_risk-RiskRequirements}

full_is_not_nil : (ts : List String) (t : String) → ts ++ t ∷ [] ≡ [] → ⊥
full_is_not_nil [] t h = cc
full_is_not_nil (s ∷ ts) t h = cc

ended-review :
    (t : String) (review open_blockers : List String)
    → (if is_nil (review ++ open_blockers) then t ∷ [] else review ++ open_blockers) ≡ []
    → review ≡ []
ended-review t [] open_blockers h = refl
ended-review t (x ∷ xs) open_blockers h = cc

weigh_research-review :
    (run_entry : Fields) (review : List String) (state : String)
    → (weigh_research run_entry review state).blockers ≡ []
    → review ≡ []
unfolding weigh_research
weigh_research-review run_entry review state h =
    elim (Bool-cases (str_eq state "paper_candidate")) [
      | inl p ↦ rw (p, weigh_research) at h
      | inr p ↦
          elim (Bool-cases
            (str_eq state "kill" || str_eq state "revise" || str_eq state "blocked")) [
              | inl q ↦
                  ended-review (text_append "package verdict is " state) review
                    (texts (list_of (get "open_blockers" run_entry)))
                    (rw (p, q, weigh_research) at h)
              | inr q ↦ absurd (
                  full_is_not_nil review "package has no recognized research verdict"
                    (rw (p, q, weigh_research) at h))
            ]
    ]

ok-injective : (a b : Outcome) → ◌≡◌ {A = Result GateError Outcome} (ok a) (ok b) → a ≡ b
ok-injective a b q = cc

-- The findings name the reviewer, and the blockers come after those of the review.
judge_research-review :
    (w : GateWorld) (r : GateRequest) (run_entry verdict : Fields) (review : List String)
    (o : Outcome)
    → judge_research w r run_entry verdict review ≡ ok o
    → o.blockers ≡ []
    → review ≡ []
unfolding judge_research
judge_research-review w r run_entry verdict review o h n =
    let a = >>=-eq-ok _ _ h in
    let b = >>-eq-ok _ _ a.2 in
    let c = >>-eq-ok _ _ b.1 in
    weigh_research-review run_entry review (text_or_empty (get "verdict" verdict))
      (ap (λ x. x.blockers) (ok-injective _ _ c.1) ∙ n)

-- Of a gate that is not the live gate.
pub judge_outcome-review :
    (w : GateWorld) (v : Host) (r : GateRequest) (policy run_entry verdict : Fields) (id : String)
    (review : List String) (o : Outcome)
    → judge_outcome w v r policy run_entry verdict id review ≡ ok o
    → o.blockers ≡ []
    → review ≡ []
unfolding judge_outcome
judge_outcome-review w v r policy run_entry verdict id review o h n =
    elim (Bool-cases (str_eq r.gate "research_gate")) [
      | inl p ↦ judge_research-review w r run_entry verdict review o (rw (p, judge_outcome) at h) n
      | inr p ↦ elim (Bool-cases (str_eq r.gate "paper_gate")) [
        | inl q ↦
            (judge_paper-PaperRequirements w v r id verdict review o
              (of_ledger-eq-ok _ (rw (p, q, judge_outcome) at h)) n).0
        | inr q ↦ elim (Bool-cases (str_eq r.gate "risk_review")) [
          | inl t ↦
              (judge_risk-RiskRequirements w v r id run_entry review o
                (of_ledger-eq-ok _ (rw (p, q, t, judge_outcome) at h)) n).0
          | inr t ↦
              let e : ok (judge_live policy) ≡ ok o = rw (p, q, t, judge_outcome) at h in
              absurd (live_blocks (judge_live policy) o refl (ok-injective _ _ e) n)
        ]
      ]
    ]
  where
    live_blocks : (a b : Outcome) → is_nil a.blockers ≡ false → a ≡ b → b.blockers ≡ [] → ⊥
    live_blocks a b x y z =
        let f : a.blockers ≡ [] = ap (λ s. s.blockers) y ∙ z in let g = ap is_nil f in cc
