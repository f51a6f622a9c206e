-- ===== src/Ledger/Reproduced.antt =====
-- ledger.py: what a gate decision that the replay accepts has in common with the evaluation that
-- reproduces it.
use the_pass.Prelude.{
  String, true, false, Option, none, some, List, ◌≡◌, inl, inr, refl, ap, ◌∙◌, sym, str_eq, eq_iff,
  any_of, Bool-cases, Option-cases, if◌then◌else◌,
}
use the_pass.Prelude.Result.{Result, ok, >>=-eq-ok}
use the_pass.Json.{Value, object, Fields, get, insert, is_text, text_or_empty, as_object}
use the_pass.Json.Laws.{get-insert}
use the_pass.Ledger.Host.{Host}
use the_pass.Ledger.Issues
use the_pass.Ledger.Issues.{Fault, LedgerError}
use the_pass.Ledger.Entries.{is_kind}
use the_pass.Ledger.Semantics.{
  is_run_at, decision_artifact, compare_gate_entry, judge_decision, judge_gate, judge,
}
use the_pass.Ledger.Shown.{Shows, ShowsDecisions, compare_gate_entry-texts, is_text-eq}

-- The evaluation behind an entry: of the entry's gate, from the entries trusted before it.
pub record IsReproduced (h : Host) (l : String) (trusted : List Fields) (e : Fields)
    (gate result id : String) : Type 0 where
  pub reviewer : String
  pub decision : Fields
  pub evaluates :
      h.evaluate_gate (record {
        package_dir = h.beside l (text_or_empty (get "package_path" e));
        gate = gate;
        reviewer = reviewer;
        ledger_path = l;
        entries = some trusted;
      })
      ≡ ok (some decision)
  pub decides : is_text result (get "gate_result" decision) ≡ true
  pub identifies : is_text id (get "package_id" decision) ≡ true

-- The value of a reproduction, and the decision that is compared.
dated : Fields → Option Fields → Option Fields
dated d o = elim o [ none ↦ none | some m ↦ some (insert "created_at" (get "created_at" d) m) ]

-- What the comparison of the two decisions has found, and the entry's.
compared :
    (h : Host) (l pkg path : String) (d e : Fields) (o : Option Fields)
    → elim (dated d o) as (λ _. Result LedgerError (Option Fault)) [
      | none ↦ ok (some Issues.Fault.decision_not_reproduced)
      | some expected ↦
          if str_eq (h.canonical_json (object expected)) (h.canonical_json (object d))
          then compare_gate_entry h l pkg path d e
          else ok (some Issues.Fault.decision_differs)
    ]
      ≡ ok none
    → (m : Fields) × (o ≡ some m)
      × (h.canonical_json (object (insert "created_at" (get "created_at" d) m))
          ≡ h.canonical_json (object d))
      × (compare_gate_entry h l pkg path d e ≡ ok none)
unfolding dated
compared h l pkg path d e none q = cc
compared h l pkg path d e (some m) q =
    elim (Bool-cases (
      str_eq (h.canonical_json (object (insert "created_at" (get "created_at" d) m)))
        (h.canonical_json (object d)))) [
          | inl b ↦ (m, refl, (eq_iff _ _).0 b, rw b at q)
          | inr b ↦ let y : ok (some Issues.Fault.decision_differs) ≡ ok none = rw b at q in cc
        ]

-- A decision read at a key other than its date, through the canonical texts.
decision_at :
    (h : Host) (k s : String) (d m : Fields) (v : Value)
    → Shows h k
    → str_eq k "created_at" ≡ false
    → h.canonical_json (object (insert "created_at" v m)) ≡ h.canonical_json (object d)
    → is_text s (get k d) ≡ true
    → is_text s (get k m) ≡ true
decision_at h k s d m v shows p c t =
    let l : get k (insert "created_at" v m) ≡ get k m = get-insert k "created_at" v m ∙ rw p refl in
    ap (is_text s) (sym l) ∙ shows s _ _ c ∙ t

-- The accepted decision, with the evaluation that reproduces it.
judge_decision-IsReproduced :
    (h : Host) (l path : String) (trusted : List Fields) (d e : Fields) (gate result id : String)
    → ShowsDecisions h
    → judge_decision h l (h.beside l (text_or_empty (get "package_path" e))) path trusted d e
      ≡ ok none
    → is_text gate (get "gate" e) ≡ true
    → is_text result (get "gate_result" e) ≡ true
    → is_text id (get "package_id" e) ≡ true
    → IsReproduced h l trusted e gate result id
unfolding judge_decision dated
judge_decision-IsReproduced h l path trusted d e gate result id shows q g p i =
    let a = >>=-eq-ok _ _ q in
    let b = >>=-eq-ok _ _ a.1 in
    let c = compared h l _ path d e b.0 (rw (sym (ok-injective _ _ b.2)) at a.2) in
    let t = compare_gate_entry-texts h l _ path d e shows c.3 in
    let gate_id = sym (t gate).0 ∙ g in
    record {
      reviewer = text_or_empty (get "reviewer" d);
      decision = c.0;
      evaluates =
          ap
            (λ x. h.evaluate_gate (record {
              package_dir = h.beside l (text_or_empty (get "package_path" e));
              gate = x;
              reviewer = text_or_empty (get "reviewer" d);
              ledger_path = l;
              entries = some trusted;
            }))
            (sym (is_text-eq gate _ gate_id))
          ∙ b.1
          ∙ ap ok c.1;
      decides =
          decision_at h "gate_result" result d c.0 _ shows.gate_result refl c.2
            (sym (t result).1 ∙ p);
      identifies =
          decision_at h "package_id" id d c.0 _ shows.package_id refl c.2 (sym (t id).2 ∙ i);
    }
  where
    ok-injective :
        (x y : Option Fields) → ◌≡◌ {A = Result LedgerError (Option Fields)} (ok x) (ok y) → x ≡ y
    ok-injective x y z = cc

judge_gate-IsReproduced :
    (h : Host) (l : String) (trusted : List Fields) (e : Fields) (gate result id : String)
    → ShowsDecisions h
    → judge_gate h l trusted e ≡ ok none
    → is_text gate (get "gate" e) ≡ true
    → is_text result (get "gate_result" e) ≡ true
    → is_text id (get "package_id" e) ≡ true
    → IsReproduced h l trusted e gate result id
unfolding judge_gate
judge_gate-IsReproduced h l trusted e gate result id shows q g p i =
    elim (Option-cases (decision_artifact e)) [
      | inl n ↦ let y : ok (some Issues.decision_count) ≡ ok none = rw (n, judge_gate) at q in cc
      | inr a ↦
          elim (Bool-cases (
            any_of
              (is_run_at h l (get "package_id" e)
                (h.beside l (text_or_empty (get "package_path" e))))
              trusted)) [
                | inr n ↦
                    let y : ok (some Issues.Fault.run_not_recorded) ≡ ok none =
                      rw (a.1, n, judge_gate) at q in
                    cc
                | inl r ↦
                    let b = >>=-eq-ok _ _ (rw (a.1, r, judge_gate) at q) in
                    read b.0 (text_or_empty (get "path" a.0)) b.2
              ]
    ]
  where
    read :
        (v : Value) (path : String)
        → elim (as_object v) as (λ _. Result LedgerError (Option Fault)) [
          | none ↦ ok (some Issues.Fault.decision_not_object)
          | some d ↦
              judge_decision h l
                (h.beside l (text_or_empty (get "package_path" e)))
                (h.within (h.beside l (text_or_empty (get "package_path" e))) path)
                trusted
                d
                e
        ]
          ≡ ok none
        → IsReproduced h l trusted e gate result id
    read (object d) path z =
        judge_decision-IsReproduced h l _ trusted d e gate result id shows z g p i
    read v path z = cc

-- The kind of an entry is one text.
other_kind :
    (s t : String) (v : Value) → str_eq t s ≡ false → is_text s v ≡ true → is_text t v ≡ false
other_kind s t v n p = elim (Bool-cases (is_text t v)) [
  | inr q ↦ q
  | inl q ↦
      let e = is_text-eq s v p in
      let f = is_text-eq t v q in let y = (eq_iff t s).1 (sym f ∙ e) in cc
]

-- An entry of a decision that the replay accepts is the one that an evaluation gives.
pub judge-IsReproduced :
    (h : Host) (l : String) (trusted : List Fields) (e : Fields) (gate result id : String)
    → ShowsDecisions h
    → judge h l trusted e ≡ ok none
    → is_kind "gate_decision" e ≡ true
    → is_text gate (get "gate" e) ≡ true
    → is_text result (get "gate_result" e) ≡ true
    → is_text id (get "package_id" e) ≡ true
    → IsReproduced h l trusted e gate result id
unfolding judge
judge-IsReproduced h l trusted e gate result id shows q k g p i =
    let a : is_kind "robustness_registration" e ≡ false =
      other_kind "gate_decision" "robustness_registration" (get "entry_kind" e) refl k in
    let b : is_kind "run" e ≡ false =
      other_kind "gate_decision" "run" (get "entry_kind" e) refl k in
    judge_gate-IsReproduced h l trusted e gate result id shows (rw (a, b, judge) at q) g p i
