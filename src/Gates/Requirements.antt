-- ===== src/Gates/Requirements.antt =====
-- What the paper gate and the risk review require before they pass.
use the_pass.Prelude.{
  not-eq-false, String, Bool, true, false, not, Option, List, [], ◌≡◌, refl, ap, ◌∙◌, append-eq-nil,
}
use the_pass.Prelude.Result.{Result, ok, >>=-eq-ok}
use the_pass.Json.{Fields, get, is_text, list_of, texts}
use the_pass.Ledger.Host.{Host, GateRequest}
use the_pass.Ledger.Issues.{LedgerError}
use the_pass.Gates.GateWorld.{GateWorld, report_if}
use the_pass.Gates.Evidence.{Found, workflow_artifact}
use the_pass.Gates.Audit.{gate_audit_artifact}
use the_pass.Gates.Judgement.{Outcome, earlier_gate_passes}
use the_pass.Gates.PaperGate.{check_paper, judge_paper}
use the_pass.Gates.RiskGate.{check_risk, judge_risk}

pub report_if-eq-nil : (b : Bool) (t : String) → report_if b t ≡ [] → b ≡ false
report_if-eq-nil true t h = cc
report_if-eq-nil false t h = refl

-- `report_if (not b)` reports nothing exactly where the test holds.
pub report_if-not-eq-nil : (b : Bool) (t : String) → report_if (not b) t ≡ [] → b ≡ true
report_if-not-eq-nil b t h = not-eq-false b (report_if-eq-nil (not b) t h)

-- A paper gate without blockers: the audit report has none, the research gate has passed for the
-- package, the verdict is a paper candidate, and the artifacts of the paper run are in order.
pub record PaperRequirements (w : GateWorld) (v : Host) (r : GateRequest) (package_id : String)
    (verdict : Fields) : Type 0 where
  pub audit : Option String
  pub plan : Found
  pub observation : Found
  pub divergence : Found
  pub audits : gate_audit_artifact w r.package_dir r.gate r.reviewer package_id ≡ ok (audit, [])
  pub follows : earlier_gate_passes v r package_id "research_gate" ≡ ok true
  pub candidate : is_text "paper_candidate" (get "verdict" verdict) ≡ true
  pub plans : workflow_artifact w r.package_dir "paper_plan" ≡ ok plan
  pub observes : workflow_artifact w r.package_dir "observation_manifest" ≡ ok observation
  pub diverges : workflow_artifact w r.package_dir "divergence_report" ≡ ok divergence
  pub valid_plan : plan.issues ≡ []
  pub valid_observation : observation.issues ≡ []
  pub valid_divergence : divergence.issues ≡ []
  pub checks : check_paper w plan.document divergence.document ≡ []

ok-injective {ℓ} : {A : Type ℓ} (a b : A) → ◌≡◌ {A = Result LedgerError A} (ok a) (ok b) → a ≡ b
ok-injective a b q = cc

pub judge_paper-PaperRequirements :
    (w : GateWorld) (v : Host) (r : GateRequest) (package_id : String) (verdict : Fields)
    (review : List String) (o : Outcome)
    → judge_paper w v r package_id verdict review ≡ ok o
    → o.blockers ≡ []
    → (review ≡ []) × PaperRequirements w v r package_id verdict
unfolding judge_paper
judge_paper-PaperRequirements w v r id verdict review o h n =
    let a = >>=-eq-ok _ _ h in
    let b = >>=-eq-ok _ _ a.2 in
    let c = >>=-eq-ok _ _ b.2 in
    let d = >>=-eq-ok _ _ c.2 in
    let f = >>=-eq-ok _ _ d.2 in
    let all = ap (λ x. x.blockers) (ok-injective _ _ f.2) ∙ n in
    let p0 = append-eq-nil _ _ all in
    let p1 = append-eq-nil _ _ p0.1 in
    let p2 = append-eq-nil _ _ p1.1 in
    let p3 = append-eq-nil _ _ p2.1 in
    let p4 = append-eq-nil _ _ p3.1 in
    let p5 = append-eq-nil _ _ p4.1 in
    let p6 = append-eq-nil _ _ p5.1 in
    (
      p0.0,
      record {
        audit = a.0.0;
        plan = c.0;
        observation = d.0;
        divergence = f.0;
        audits = a.1 ∙ ap (λ x. ok (a.0.0, x)) p1.0;
        follows = b.1 ∙ ap ok (report_if-not-eq-nil _ _ p3.0);
        candidate = report_if-not-eq-nil _ _ p2.0;
        plans = c.1;
        observes = d.1;
        diverges = f.1;
        valid_plan = p4.0;
        valid_observation = p5.0;
        valid_divergence = p6.0;
        checks = p6.1;
      },
    )

-- A risk review without blockers: the paper gate has passed for the package, the audit, the risk
-- report, the approval and the configuration are in order, and the run has no open blockers.
pub record RiskRequirements (w : GateWorld) (v : Host) (r : GateRequest) (package_id : String)
    (run_entry : Fields) : Type 0 where
  pub audit : Option String
  pub risk : Found
  pub approval : Found
  pub config : Found
  pub audits : gate_audit_artifact w r.package_dir r.gate r.reviewer package_id ≡ ok (audit, [])
  pub follows : earlier_gate_passes v r package_id "paper_gate" ≡ ok true
  pub risks : workflow_artifact w r.package_dir "risk_report" ≡ ok risk
  pub approves : workflow_artifact w r.package_dir "approval_pack" ≡ ok approval
  pub configures : workflow_artifact w r.package_dir "config_diff" ≡ ok config
  pub valid_risk : risk.issues ≡ []
  pub valid_approval : approval.issues ≡ []
  pub valid_config : config.issues ≡ []
  pub checks : check_risk package_id risk.document approval.document config.document ≡ []
  pub unblocked : texts (list_of (get "open_blockers" run_entry)) ≡ []

pub judge_risk-RiskRequirements :
    (w : GateWorld) (v : Host) (r : GateRequest) (package_id : String) (run_entry : Fields)
    (review : List String) (o : Outcome)
    → judge_risk w v r package_id run_entry review ≡ ok o
    → o.blockers ≡ []
    → (review ≡ []) × RiskRequirements w v r package_id run_entry
unfolding judge_risk
judge_risk-RiskRequirements w v r id run_entry review o h n =
    let a = >>=-eq-ok _ _ h in
    let b = >>=-eq-ok _ _ a.2 in
    let c = >>=-eq-ok _ _ b.2 in
    let d = >>=-eq-ok _ _ c.2 in
    let f = >>=-eq-ok _ _ d.2 in
    let all = ap (λ x. x.blockers) (ok-injective _ _ f.2) ∙ n in
    let p0 = append-eq-nil _ _ all in
    let p1 = append-eq-nil _ _ p0.1 in
    let p2 = append-eq-nil _ _ p1.1 in
    let p3 = append-eq-nil _ _ p2.1 in
    let p4 = append-eq-nil _ _ p3.1 in
    let p5 = append-eq-nil _ _ p4.1 in
    let p6 = append-eq-nil _ _ p5.1 in
    (
      p0.0,
      record {
        audit = a.0.0;
        risk = c.0;
        approval = d.0;
        config = f.0;
        audits = a.1 ∙ ap (λ x. ok (a.0.0, x)) p1.0;
        follows = b.1 ∙ ap ok (report_if-not-eq-nil _ _ p2.0);
        risks = c.1;
        approves = d.1;
        configures = f.1;
        valid_risk = p3.0;
        valid_approval = p4.0;
        valid_config = p5.0;
        checks = p6.0;
        unblocked = p6.1;
      },
    )
