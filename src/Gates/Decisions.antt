-- ===== src/Gates/Decisions.antt =====
-- What a decision of `evaluate_gate` shows: its blockers and its exit code.
use the_pass.Prelude.{
  ℕ, String, Bool, true, false, List, [], ◌∷◌, ◌≡◌, inl, inr, refl, ap, sym, ◌∙◌, is_nil, map,
  str_eq, eq_iff, if◌then◌else◌, Bool-cases,
}
use the_pass.Prelude.Result.{Result, ok, Ensures-of}
use the_pass.Json.{text, array, end, items, Fields, get, is_text, list_of}
use the_pass.Ledger.Host.{Host, GateRequest}
use the_pass.Gates.GateWorld.{GateWorld, GateError}
use the_pass.Gates.Judgement.{Outcome, judge_live}
use the_pass.Gates.Evaluate.{
  GateEvaluation, judge_outcome, decision_of, exit_code_of, evaluate_gate,
}
use the_pass.Gates.Passing.{
  Evaluated, evaluate_gate-Evaluated, IsWeighed, passed, stopped, judge_outcome-IsWeighed,
}

-- The two kinds of evaluation.
pub data IsDecided (r : GateRequest) (e : GateEvaluation) : Type 0 where
  passes :
      str_eq r.gate "live_gate" ≡ false
      → get "gate_result" e.decision ≡ text "pass"
      → get "blockers" e.decision ≡ array end
      → e.exit_code ≡ 0
      → IsDecided r e
  stops :
      is_text "pass" (get "gate_result" e.decision) ≡ false
      → is_nil (list_of (get "blockers" e.decision)) ≡ false
      → e.exit_code ≡ (if str_eq r.gate "live_gate" then 3 else 2)
      → IsDecided r e

result_of_decision :
    {w : GateWorld} {v : Host} {r : GateRequest} {e : GateEvaluation} (s : Evaluated w v r e)
    → get "gate_result" e.decision ≡ text s.outcome.result
unfolding decision_of
result_of_decision s = ap (get "gate_result") s.decides

blockers_of_decision :
    {w : GateWorld} {v : Host} {r : GateRequest} {e : GateEvaluation} (s : Evaluated w v r e)
    → get "blockers" e.decision ≡ array (items (map text s.outcome.blockers))
unfolding decision_of
blockers_of_decision s = ap (get "blockers") s.decides

pub outcome-IsWeighed :
    {w : GateWorld} {v : Host} {r : GateRequest} {e : GateEvaluation} (s : Evaluated w v r e)
    → IsWeighed s.outcome
outcome-IsWeighed {w} {v} {r} s =
    Ensures-of IsWeighed _
      (judge_outcome-IsWeighed w v r s.policy s.run_entry s.verdict _ s.review.blockers) s.judges

-- The live gate is judged by its lock.
locked :
    (w : GateWorld) (v : Host) (r : GateRequest) (policy run_entry verdict : Fields) (id : String)
    (review : List String) (o : Outcome)
    → str_eq r.gate "live_gate" ≡ true
    → judge_outcome w v r policy run_entry verdict id review ≡ ok o
    → str_eq o.result "pass" ≡ false
unfolding judge_outcome
locked w v r policy run_entry verdict id review o l h =
    let g = (eq_iff r.gate "live_gate").0 l in
    let q : ok (judge_live policy) ≡ ok o = rw (g, judge_outcome) at h in reads q
  where
    reads :
        ◌≡◌ {A = Result GateError Outcome} (ok (judge_live policy)) (ok o)
        → str_eq o.result "pass" ≡ false
    reads q = let f : judge_live policy ≡ o = cc in rw (sym f) refl

turned : (s t : String) → str_eq s t ≡ false → str_eq t s ≡ false
turned s t h = elim (Bool-cases (str_eq t s)) [
  | inr q ↦ q
  | inl q ↦ let e = (eq_iff s t).1 (sym ((eq_iff t s).0 q)) in cc
]

abbrev pub code_of : Bool → String → ℕ
code_of b gate = if b then 0 else if str_eq gate "live_gate" then 3 else 2

rendered :
    (ts : List String) → is_nil ts ≡ false → is_nil (list_of (array (items (map text ts)))) ≡ false
rendered [] h = h
rendered (t ∷ ts) h = refl

-- A gate evaluation that returns is of one of two kinds. Either the gate is not the live gate, the
-- result is `pass`, there are no blockers and the exit code is 0; or the result is not `pass`,
-- there is a blocker, and the exit code is 3 at the live gate and 2 at the others.
pub evaluate_gate-IsDecided :
    (w : GateWorld) (verifier : Host) (r : GateRequest) (e : GateEvaluation)
    → evaluate_gate w verifier r ≡ ok e
    → IsDecided r e
evaluate_gate-IsDecided w v r e h =
    let s = evaluate_gate-Evaluated w v r e h in decide s (outcome-IsWeighed s)
  where
    decide : (s : Evaluated w v r e) → IsWeighed s.outcome → IsDecided r e
    decide s (passed p q) =
        passes
          (elim (Bool-cases (str_eq r.gate "live_gate")) [
            | inr l ↦ l
            | inl l ↦
                let n =
                  locked w v r s.policy s.run_entry s.verdict _ s.review.blockers s.outcome l
                    s.judges in
                let y = (eq_iff s.outcome.result "pass").1 p in cc
          ])
          (result_of_decision s ∙ ap text p)
          (blockers_of_decision s ∙ ap (λ ts. array (items (map text ts))) q)
          (s.exits ∙ ap (exit_code_of r.gate) p)
    decide s (stopped p q) =
        stops (ap (is_text "pass") (result_of_decision s) ∙ turned s.outcome.result "pass" p)
          (ap (λ x. is_nil (list_of x)) (blockers_of_decision s) ∙ rendered s.outcome.blockers q)
          (s.exits ∙ ap (λ b. code_of b r.gate) p)
