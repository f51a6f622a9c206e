-- ===== src/Gates/Sequence.antt =====
-- The order of the gates in a ledger that the replay accepts, with the evaluator plugged into it.
use mathlib.Core.Path.{subst}
use the_pass.Prelude.{
  String, Bool, true, false, none, some, List, [], ◌∷◌, ◌++◌, ◌≡◌, refl, ap, ◌∙◌, sym, str_eq,
  eq_iff, any_of, &&-eq-true,
}
use the_pass.Prelude.Result.{Result, ok, raise}
use the_pass.Json.{text, Fields, get, is_text, text_or_empty}
use the_pass.Ledger.Host.{Host, GateRequest}
use the_pass.Ledger.Issues.{LedgerError}
use the_pass.Ledger.Entries.{is_v2, is_kind}
use the_pass.Ledger.Semantics.{judge, verify_ledger_semantics}
use the_pass.Ledger.Replay.{verify_ledger_semantics-IsJudged}
use the_pass.Ledger.Append.{is_passage, has_passed_gate}
use the_pass.Ledger.Shown.{ShowsDecisions}
use the_pass.Ledger.Reproduced.{judge-IsReproduced}
use the_pass.Gates.GateWorld.{GateWorld, GateError, refused, ledger}
use the_pass.Gates.Judgement.{earlier_gate_passes}
use the_pass.Gates.Evaluate.{GateEvaluation, evaluate_gate}
use the_pass.Gates.Decisions.{IsDecided, passes, stops, evaluate_gate-IsDecided}
use the_pass.Gates.Order.{evaluate_gate-PaperPass, evaluate_gate-RiskPass}
use the_pass.Gates.Composed.{caught, host_for_replay, host_of}
use the_pass.Ledger.Judged.{IsJudged-earlier, IsJudged-at}

-- The evaluation behind a recorded passage.
record IsEvaluated (w : GateWorld) (l id gate dir : String) (trusted : List Fields) : Type 0 where
  reviewer : String
  evaluation : GateEvaluation
  evaluates :
      evaluate_gate w (host_for_replay w) (record {
        package_dir = dir;
        gate = gate;
        reviewer = reviewer;
        ledger_path = l;
        entries = some trusted;
      })
      ≡ ok evaluation
  unlocked : str_eq gate "live_gate" ≡ false
  exits : evaluation.exit_code ≡ 0
  identifies : is_text id (get "package_id" evaluation.decision) ≡ true

caught-decision :
    (m : Result GateError GateEvaluation) (d : Fields)
    → caught m ≡ ok (some d)
    → (e : GateEvaluation) × (m ≡ ok e) × (e.decision ≡ d)
caught-decision (ok e) d h = (e, refl, cc)
caught-decision (raise (refused t)) d h = cc
caught-decision (raise (ledger x)) d h = cc

-- What a passage says.
record Passage (h : Host) (l id gate dir : String) (e : Fields) : Type 0 where
  current : is_v2 e ≡ true
  decided : is_kind "gate_decision" e ≡ true
  package_id : is_text id (get "package_id" e) ≡ true
  at_gate : is_text gate (get "gate" e) ≡ true
  result : is_text "pass" (get "gate_result" e) ≡ true
  directory : h.beside l (text_or_empty (get "package_path" e)) ≡ dir

Passage-parts :
    (h : Host) (l id gate dir : String) (e : Fields)
    → is_passage h l id gate dir e ≡ true
    → Passage h l id gate dir e
Passage-parts h l id gate dir e p =
    let a = &&-eq-true _ (str_eq (h.beside l (text_or_empty (get "package_path" e))) dir) p in
    let b = &&-eq-true _ (is_text "pass" (get "gate_result" e)) a.0 in
    let c = &&-eq-true _ (is_text gate (get "gate" e)) b.0 in
    let d = &&-eq-true _ (is_text id (get "package_id" e)) c.0 in
    let f = &&-eq-true (is_v2 e) (is_kind "gate_decision" e) d.0 in
    record {
      current = f.0;
      decided = f.1;
      package_id = d.1;
      at_gate = c.1;
      result = b.1;
      directory = (eq_iff _ dir).0 a.1;
    }

passing_decision :
    (r : GateRequest) (e : GateEvaluation)
    → is_text "pass" (get "gate_result" e.decision) ≡ true
    → IsDecided r e
    → (str_eq r.gate "live_gate" ≡ false) × (e.exit_code ≡ 0)
passing_decision r e p (passes l x y z) = (l, z)
passing_decision r e p (stops x y z) = cc

Passage-IsEvaluated :
    (w : GateWorld) (l id gate dir : String) (trusted : List Fields) (e : Fields)
    → ShowsDecisions (host_of w)
    → Passage (host_of w) l id gate dir e
    → judge (host_of w) l trusted e ≡ ok none
    → IsEvaluated w l id gate dir trusted
Passage-IsEvaluated w l id gate dir trusted e shows p j =
    let a =
      judge-IsReproduced (host_of w) l trusted e gate "pass" id shows j p.decided p.at_gate p.result
        p.package_id in
    let b = caught-decision _ _ a.evaluates in
    let c =
      passing_decision _ b.0 (ap (λ d. is_text "pass" (get "gate_result" d)) b.2 ∙ a.decides)
        (evaluate_gate-IsDecided w (host_for_replay w) _ b.0 b.1) in
    record {
      reviewer = a.reviewer;
      evaluation = b.0;
      evaluates =
          ap
            (λ x. evaluate_gate w (host_for_replay w) (record {
              package_dir = x;
              gate = gate;
              reviewer = a.reviewer;
              ledger_path = l;
              entries = some trusted;
            }))
            (sym p.directory)
          ∙ b.1;
      unlocked = c.0;
      exits = c.1;
      identifies = ap (λ d. is_text id (get "package_id" d)) b.2 ∙ a.identifies;
    }

-- An evaluation from trusted entries asks them for the earlier gate.
earlier_gate-trusted :
    (w : GateWorld) (l id gate dir reviewer earlier package_id : String) (trusted : List Fields)
    → is_text id (text package_id) ≡ true
    → earlier_gate_passes
        (host_for_replay w)
        (record {
          package_dir = dir;
          gate = gate;
          reviewer = reviewer;
          ledger_path = l;
          entries = some trusted;
        })
        package_id
        earlier
      ≡ ok true
    → any_of (is_passage (host_of w) l id earlier dir) trusted ≡ true
unfolding earlier_gate_passes has_passed_gate
earlier_gate-trusted w l id gate dir reviewer earlier package_id trusted t q =
    let e = (eq_iff id package_id).0 t in
    ap (λ x. any_of (is_passage (host_of w) l x earlier dir) trusted) e ∙ same _ q
  where
    same : (b : Bool) → ◌≡◌ {A = Result LedgerError Bool} (ok b) (ok true) → b ≡ true
    same b z = cc

paper_follows :
    (w : GateWorld) (l id dir : String) (trusted : List Fields)
    → IsEvaluated w l id "paper_gate" dir trusted
    → any_of (is_passage (host_of w) l id "research_gate" dir) trusted ≡ true
paper_follows w l id dir trusted a =
    let p = evaluate_gate-PaperPass w (host_for_replay w) _ a.evaluation a.evaluates refl a.exits in
    earlier_gate-trusted w l id "paper_gate" dir a.reviewer "research_gate" _ trusted
      (ap (is_text id) (sym p.package_id) ∙ a.identifies) p.requirements.follows

risk_follows :
    (w : GateWorld) (l id dir : String) (trusted : List Fields)
    → IsEvaluated w l id "risk_review" dir trusted
    → any_of (is_passage (host_of w) l id "paper_gate" dir) trusted ≡ true
risk_follows w l id dir trusted a =
    let p = evaluate_gate-RiskPass w (host_for_replay w) _ a.evaluation a.evaluates refl a.exits in
    earlier_gate-trusted w l id "risk_review" dir a.reviewer "paper_gate" _ trusted
      (ap (is_text id) (sym p.package_id) ∙ a.identifies) p.requirements.follows

-- The passage of a gate after the entries before it.
pub record Follows (h : Host) (l id gate dir : String) (before : List Fields) : Type 0 where
  pub unlocked : str_eq gate "live_gate" ≡ false
  pub after_research :
      gate ≡ "paper_gate" → has_passed_gate h l before id "research_gate" dir ≡ true
  pub after_paper : gate ≡ "risk_review" → has_passed_gate h l before id "paper_gate" dir ≡ true

-- In a ledger that the replay accepts, where the replay reproduces decisions by `evaluate_gate` and
-- the canonical text of a document determines its gate, its result and its package id, a recorded
-- passage is never of the live gate; that of the paper gate comes after one of the research gate,
-- and that of the risk review after one of the paper gate, for the same package and directory.
pub verify_ledger_semantics-Follows :
    (w : GateWorld) (l id gate dir : String) (before : List Fields) (e : Fields)
    (after : List Fields)
    → ShowsDecisions (host_of w)
    → verify_ledger_semantics (host_of w) l (before ++ e ∷ after) ≡ ok []
    → is_passage (host_of w) l id gate dir e ≡ true
    → Follows (host_of w) l id gate dir before
unfolding has_passed_gate
verify_ledger_semantics-Follows w l id gate dir before e after shows q p =
    let j = verify_ledger_semantics-IsJudged (host_of w) l (before ++ e ∷ after) q in
    let s = Passage-parts (host_of w) l id gate dir e p in
    let t = IsJudged-at (host_of w) l e after s.current [] before j in
    record {
      unlocked = (Passage-IsEvaluated w l id gate dir t.0 e shows s t.1).unlocked;
      after_research = λ g.
          IsJudged-earlier (host_of w) l _ e after s.current
            (λ trusted x.
              paper_follows w l id dir trusted
                (at_gate g (Passage-IsEvaluated w l id gate dir trusted e shows s x)))
            [] before j;
      after_paper = λ g.
          IsJudged-earlier (host_of w) l _ e after s.current
            (λ trusted x.
              risk_follows w l id dir trusted
                (at_gate g (Passage-IsEvaluated w l id gate dir trusted e shows s x)))
            [] before j;
    }
  where
    at_gate :
        {a b : String} {trusted : List Fields}
        → a ≡ b
        → IsEvaluated w l id a dir trusted
        → IsEvaluated w l id b dir trusted
    at_gate {trusted} g x = subst (λ y. IsEvaluated w l id y dir trusted) g x
