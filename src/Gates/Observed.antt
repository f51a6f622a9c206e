-- ===== src/Gates/Observed.antt =====
-- How long and how often a paper run that passes its gate was observed.
use the_pass.Prelude.{
  ℕ, ◌+◌, ◌*◌, ◌-◌, ◌≤◌, false, ◌||◌, some, [], ◌≡◌, refl, arith, ap, ◌∙◌, sym, leb, ltb,
  append-eq-nil, Option-cases, inl, inr,
}
use the_pass.Prelude.Result.{Result, ok}
use the_pass.Json.{ℤ, pos, negsuc, integer, Fields, get, object_at}
use the_pass.Ledger.Host.{Host, GateRequest}
use the_pass.Ledger.Issues.{LedgerError}
use the_pass.Gates.GateWorld.{GateWorld}
use the_pass.Gates.Evidence.{Found, workflow_artifact}
use the_pass.Gates.PaperGate.{
  fewer_than, signals_of, timestamp, is_short, check_window, check_signals, check_plan,
  check_divergence, check_sample, check_paper,
}
use the_pass.Gates.Evaluate.{GateEvaluation, evaluate_gate}
use the_pass.Gates.Requirements.{report_if-eq-nil}
use the_pass.Gates.Order.{evaluate_gate-PaperPass}

-- The observed window of a paper run, in microseconds, and its signals.
pub record IsObserved (w : GateWorld) (sample : Fields) (days : ℕ) (minimum : ℕ) : Type 0 where
  pub start : ℕ
  pub end : ℕ
  pub signals : ℕ
  pub starts : timestamp w (get "start_time" sample) ≡ some start
  pub ends : timestamp w (get "end_time" sample) ≡ some end
  pub long : start + days * 86400000000 ≤ end
  pub counted : signals_of w sample ≡ pos signals
  pub enough : minimum ≤ signals

is_short-window :
    (w : GateWorld) (sample : Fields) (days : ℕ)
    → is_short w sample (pos days) ≡ false
    → (start : ℕ) × (end : ℕ) × (timestamp w (get "start_time" sample) ≡ some start)
      × (timestamp w (get "end_time" sample) ≡ some end)
      × (start + days * 86400000000 ≤ end)
unfolding is_short
is_short-window w sample days h = elim (Option-cases (timestamp w (get "start_time" sample))) [
  | inl n ↦ let q = rw (n, is_short) at h in cc
  | inr s ↦ elim (Option-cases (timestamp w (get "end_time" sample))) [
    | inl n ↦ let q = rw (s.1, n, is_short) at h in cc
    | inr t ↦ (s.0, t.0, s.1, t.1, long s.0 t.0 (rw (s.1, t.1, is_short) at h))
  ]
]
  where
    long :
        (start end : ℕ)
        → leb end start || ltb (end - start) (days * 86400000000) ≡ false
        → start + days * 86400000000 ≤ end
    long start end q = ground arith

enough_signals :
    (z : ℤ) (minimum : ℕ)
    → fewer_than z (pos minimum) ≡ false
    → (k : ℕ) × (z ≡ pos k) × (minimum ≤ k)
enough_signals (pos k) minimum h = (k, refl, bound h)
  where
    bound : ltb k minimum ≡ false → minimum ≤ k
    bound q = ground arith
enough_signals (negsuc k) minimum h = cc

check_sample-IsObserved :
    (w : GateWorld) (plan d : Fields) (days minimum : ℕ)
    → check_sample w (some plan) (some d) ≡ []
    → get "minimum_days" (object_at "observation" plan) ≡ integer (pos days)
    → get "minimum_signals" (object_at "observation" plan) ≡ integer (pos minimum)
    → IsObserved w (object_at "sample" d) days minimum
unfolding check_sample check_window check_signals
check_sample-IsObserved w plan d days minimum h a b =
    let p = append-eq-nil (check_window w plan (object_at "sample" d)) _ h in
    let x = report_if-eq-nil _ _ (rw (a, check_window) at p.0) in
    let y = report_if-eq-nil _ _ (rw (b, check_signals) at p.1) in
    let s = is_short-window w (object_at "sample" d) days x in
    let k = enough_signals (signals_of w (object_at "sample" d)) minimum y in
    record {
      start = s.0;
      end = s.1;
      signals = k.0;
      starts = s.2;
      ends = s.3;
      long = s.4;
      counted = k.1;
      enough = k.2;
    }

-- If the paper gate is evaluated with exit code 0 on a paper plan that asks for a number of days
-- and of signals, and on a divergence report, then the report's sample starts and ends at times
-- that are at least the days apart, and has at least the signals.
pub evaluate_gate-IsObserved :
    (w : GateWorld) (verifier : Host) (r : GateRequest) (e : GateEvaluation) (p d : Found)
    (plan divergence : Fields) (days minimum : ℕ)
    → evaluate_gate w verifier r ≡ ok e
    → r.gate ≡ "paper_gate"
    → e.exit_code ≡ 0
    → workflow_artifact w r.package_dir "paper_plan" ≡ ok p
    → workflow_artifact w r.package_dir "divergence_report" ≡ ok d
    → p.document ≡ some plan
    → d.document ≡ some divergence
    → get "minimum_days" (object_at "observation" plan) ≡ integer (pos days)
    → get "minimum_signals" (object_at "observation" plan) ≡ integer (pos minimum)
    → IsObserved w (object_at "sample" divergence) days minimum
unfolding check_paper
evaluate_gate-IsObserved w v r e p d plan divergence days minimum h g z hp hd ep ed a b =
    let q = (evaluate_gate-PaperPass w v r e h g z).requirements in
    let x = ap (λ f. f.document) (ok-injective _ _ (sym q.plans ∙ hp)) ∙ ep in
    let y = ap (λ f. f.document) (ok-injective _ _ (sym q.diverges ∙ hd)) ∙ ed in
    let c : check_paper w (some plan) (some divergence) ≡ [] = rw (x, y) at q.checks in
    let c1 = append-eq-nil (check_plan (some plan)) _ c in
    let c2 = append-eq-nil (check_divergence (some divergence)) _ c1.1 in
    check_sample-IsObserved w plan divergence days minimum c2.1 a b
  where
    ok-injective : (f g : Found) → ◌≡◌ {A = Result LedgerError Found} (ok f) (ok g) → f ≡ g
    ok-injective f g q = cc
