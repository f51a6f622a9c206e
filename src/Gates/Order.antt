-- ===== src/Gates/Order.antt =====
-- What the decisions of the paper gate and of the risk review follow.
use the_pass.Prelude.{String, true, false, List, ◌≡◌, refl, ap, ◌∙◌, sym, str_eq}
use the_pass.Prelude.Result.{ok}
use the_pass.Json.{null, text, Fields, get}
use the_pass.Ledger.Host.{Host, GateRequest}
use the_pass.Ledger.RunEntry.{build_run_entry}
use the_pass.Gates.GateWorld.{GateWorld, of_ledger}
use the_pass.Gates.PaperGate.{judge_paper}
use the_pass.Gates.RiskGate.{judge_risk}
use the_pass.Gates.Evaluate.{
  GateEvaluation, required_verdict, judge_outcome, decision_of, evaluate_gate,
}
use the_pass.Gates.Passing.{id_of, of_ledger-eq-ok, evaluate_gate-Evaluated}
use the_pass.Gates.Requirements.{
  PaperRequirements, RiskRequirements, judge_paper-PaperRequirements, judge_risk-RiskRequirements,
}
use the_pass.Gates.Safety.{passing}

judge_outcome-paper_gate :
    (w : GateWorld) (v : Host) (r : GateRequest) (policy run_entry verdict : Fields) (id : String)
    (review : List String)
    → r.gate ≡ "paper_gate"
    → judge_outcome w v r policy run_entry verdict id review
      ≡ of_ledger (judge_paper w v r id verdict review)
unfolding judge_outcome
judge_outcome-paper_gate w v r policy run_entry verdict id review g =
    let p : str_eq r.gate "research_gate" ≡ false = rw g refl in
    let q : str_eq r.gate "paper_gate" ≡ true = rw g refl in rw (p, q, judge_outcome) refl

judge_outcome-risk_review :
    (w : GateWorld) (v : Host) (r : GateRequest) (policy run_entry verdict : Fields) (id : String)
    (review : List String)
    → r.gate ≡ "risk_review"
    → judge_outcome w v r policy run_entry verdict id review
      ≡ of_ledger (judge_risk w v r id run_entry review)
unfolding judge_outcome
judge_outcome-risk_review w v r policy run_entry verdict id review g =
    let p : str_eq r.gate "research_gate" ≡ false = rw g refl in
    let q : str_eq r.gate "paper_gate" ≡ false = rw g refl in
    let t : str_eq r.gate "risk_review" ≡ true = rw g refl in rw (p, q, t, judge_outcome) refl

-- A paper gate with exit code 0.
pub record PaperPass (w : GateWorld) (v : Host) (r : GateRequest) (e : GateEvaluation)
    : Type 0 where
  pub run_entry : Fields
  pub verdict : Fields
  pub builds : build_run_entry w.host r.package_dir null r.ledger_path ≡ ok run_entry
  pub reads : required_verdict w r.package_dir ≡ ok verdict
  pub package_id : get "package_id" e.decision ≡ text (id_of run_entry)
  pub requirements : PaperRequirements w v r (id_of run_entry) verdict

-- If the paper gate is evaluated with exit code 0, the package of the decision has passed the
-- research gate, its verdict is `paper_candidate`, and neither its audit report nor its paper plan,
-- observation manifest and divergence report gives a blocker.
pub evaluate_gate-PaperPass :
    (w : GateWorld) (verifier : Host) (r : GateRequest) (e : GateEvaluation)
    → evaluate_gate w verifier r ≡ ok e
    → r.gate ≡ "paper_gate"
    → e.exit_code ≡ 0
    → PaperPass w verifier r e
unfolding decision_of
evaluate_gate-PaperPass w v r e h g z =
    let s = evaluate_gate-Evaluated w v r e h in
    let n = (passing s h z).0 in
    let j = of_ledger-eq-ok _ (
      sym (judge_outcome-paper_gate w v r s.policy s.run_entry s.verdict _ s.review.blockers g)
      ∙ s.judges) in
    let q = judge_paper-PaperRequirements w v r _ s.verdict s.review.blockers s.outcome j n in
    record {
      run_entry = s.run_entry;
      verdict = s.verdict;
      builds = s.builds;
      reads = s.reads;
      package_id = ap (get "package_id") s.decides;
      requirements = q.1;
    }

-- A risk review with exit code 0.
pub record RiskPass (w : GateWorld) (v : Host) (r : GateRequest) (e : GateEvaluation) : Type 0 where
  pub run_entry : Fields
  pub builds : build_run_entry w.host r.package_dir null r.ledger_path ≡ ok run_entry
  pub package_id : get "package_id" e.decision ≡ text (id_of run_entry)
  pub requirements : RiskRequirements w v r (id_of run_entry) run_entry

-- If the risk review is evaluated with exit code 0, the package of the decision has passed the
-- paper gate, its run has no open blockers, and neither its audit report nor its risk report,
-- approval pack and configuration difference gives a blocker.
pub evaluate_gate-RiskPass :
    (w : GateWorld) (verifier : Host) (r : GateRequest) (e : GateEvaluation)
    → evaluate_gate w verifier r ≡ ok e
    → r.gate ≡ "risk_review"
    → e.exit_code ≡ 0
    → RiskPass w verifier r e
unfolding decision_of
evaluate_gate-RiskPass w v r e h g z =
    let s = evaluate_gate-Evaluated w v r e h in
    let n = (passing s h z).0 in
    let j = of_ledger-eq-ok _ (
      sym (judge_outcome-risk_review w v r s.policy s.run_entry s.verdict _ s.review.blockers g)
      ∙ s.judges) in
    let q = judge_risk-RiskRequirements w v r _ s.run_entry s.review.blockers s.outcome j n in
    record {
      run_entry = s.run_entry;
      builds = s.builds;
      package_id = ap (get "package_id") s.decides;
      requirements = q.1;
    }
