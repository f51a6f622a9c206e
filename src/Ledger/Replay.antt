-- ===== src/Ledger/Replay.antt =====
-- What a ledger without semantic findings has to be, entry by entry.
use mathlib.Core.Path.{subst}
use the_pass.Prelude.{
  ap, ◌==◌, ℕ, ◌+◌, String, Bool, true, false, Option, none, some, List, [], ◌∷◌, ◌++◌, ◌≡◌, inl,
  inr, refl, arith, if◌then◌else◌, any_of, count_of, Bool-cases,
}
use the_pass.Prelude.Result.{Result, ok, raise, ◌>>=◌, >>=-eq-ok}
use the_pass.Json.{
  Value, boolean, decimal, equals_int, whole_from, same_number, integer, pos, Fields, get,
  text_or_empty,
}
use the_pass.Ledger.Host.{Host}
use the_pass.Ledger.Issues
use the_pass.Ledger.Issues.{Issue, entry, Fault, LedgerError, is_ledger_error, Lineage}
use the_pass.Ledger.Entries.{is_v2, is_kind}
use the_pass.Ledger.Semantics.{
  is_run_of, is_run_at, is_registration_of, judge_registration, judge_run, judge_gate, judge,
  verify_semantics_from, verify_ledger_semantics,
}

-- A value that is the number, or what Python takes for it: a Boolean or a float.
pub data IsNumber (n : ℕ) : Value → Type 0 where
  whole : IsNumber n (integer (pos n))
  flag : {b : Bool} → n ≡ (if b then 1 else 0) → IsNumber n (boolean b)
  float : {s : String} → whole_from 0 s ≡ some n → IsNumber n (decimal s)

equals_int-IsNumber : (n : ℕ) (v : Value) → equals_int n v ≡ true → IsNumber n v
unfolding equals_int
equals_int-IsNumber n (integer (pos k)) h =
    subst (λ j. IsNumber n (integer (pos j))) (same n k h) whole
  where
    same : (a b : ℕ) → a == b ≡ true → a ≡ b
    same a b q = ground arith
equals_int-IsNumber n (boolean true) h = flag (ground arith)
equals_int-IsNumber n (boolean false) h = flag (ground arith)
equals_int-IsNumber n (decimal s) h = float (of_text (whole_from 0 s) h)
  where
    of_text : (o : Option ℕ) → same_number n o ≡ true → o ≡ some n
    of_text none q = cc
    of_text (some k) q = ap some (ground arith)
equals_int-IsNumber n _ h = cc

-- An entry that fits the entries trusted before it.
pub data Fits (h : Host) (ledger : String) (trusted : List Fields) (e : Fields) : Type 0 where
  registration :
      is_kind "robustness_registration" e ≡ true
      → IsNumber
          (1
            + count_of
                (is_registration_of (get "events_fingerprint" e) (get "descriptor_fingerprint" e))
                trusted)
          (get "attempt" e)
      → Fits h ledger trusted e
  run :
      is_kind "run" e ≡ true
      → any_of (is_run_of (get "package_id" e)) trusted ≡ false
      → Fits h ledger trusted e
  decision :
      is_kind "robustness_registration" e ≡ false
      → is_kind "run" e ≡ false
      → any_of
          (is_run_at h ledger
            (get "package_id" e)
            (h.beside ledger (text_or_empty (get "package_path" e))))
          trusted
        ≡ true
      → Fits h ledger trusted e

-- Every v2 entry fits the v2 entries before it.
pub data IsReplayed (h : Host) (ledger : String) : List Fields → List Fields → Type 0 where
  done : {trusted : List Fields} → IsReplayed h ledger trusted []
  old :
      {trusted : List Fields} {e : Fields} {es : List Fields}
      → is_v2 e ≡ false
      → IsReplayed h ledger trusted es
      → IsReplayed h ledger trusted (e ∷ es)
  trust :
      {trusted : List Fields} {e : Fields} {es : List Fields}
      → is_v2 e ≡ true
      → Fits h ledger trusted e
      → IsReplayed h ledger (trusted ++ e ∷ []) es
      → IsReplayed h ledger trusted (e ∷ es)

judge_registration-fits :
    (trusted : List Fields) (e : Fields)
    → judge_registration trusted e ≡ none
    → IsNumber
        (1
          + count_of
              (is_registration_of (get "events_fingerprint" e) (get "descriptor_fingerprint" e))
              trusted)
        (get "attempt" e)
unfolding judge_registration
judge_registration-fits trusted e p = equals_int-IsNumber _ (get "attempt" e) (passed _ p)
  where
    passed :
        (b : Bool)
        → ◌≡◌ {A = Option Fault} (if b then none else some Issues.attempt_not_cumulative) none
        → b ≡ true
    passed b q = ground arith

-- The last test of `judge_run` is the one that makes package ids unique.
judge_run-fits :
    (h : Host) (l : String) (trusted : List Fields) (e : Fields)
    → judge_run h l trusted e ≡ ok none
    → any_of (is_run_of (get "package_id" e)) trusted ≡ false
unfolding judge_run
judge_run-fits h l trusted e p = ground arith

judge_gate-fits :
    (h : Host) (l : String) (trusted : List Fields) (e : Fields)
    → judge_gate h l trusted e ≡ ok none
    → any_of
        (is_run_at h l (get "package_id" e) (h.beside l (text_or_empty (get "package_path" e))))
        trusted
      ≡ true
unfolding judge_gate ◌>>=◌
judge_gate-fits h l trusted e p = ground arith

judge-Fits :
    (h : Host) (l : String) (trusted : List Fields) (e : Fields)
    → judge h l trusted e ≡ ok none
    → Fits h l trusted e
unfolding judge
judge-Fits h l trusted e p = elim (Bool-cases (is_kind "robustness_registration" e)) [
  | inl r ↦ registration r (
      judge_registration-fits trusted e
        (ok-injective (judge_registration trusted e) none (rw (r, judge) at p)))
  | inr r ↦ elim (Bool-cases (is_kind "run" e)) [
    | inl k ↦ run k (judge_run-fits h l trusted e (rw (r, k, judge) at p))
    | inr k ↦ decision r k (judge_gate-fits h l trusted e (rw (r, k, judge) at p))
  ]
]
  where
    ok-injective :
        (a b : Option Fault) → ◌≡◌ {A = Result LedgerError (Option Fault)} (ok a) (ok b) → a ≡ b
    ok-injective a b q = cc

-- Every v2 entry is judged without a finding against the v2 entries before it.
pub data IsJudged (h : Host) (ledger : String) : List Fields → List Fields → Type 0 where
  finished : {trusted : List Fields} → IsJudged h ledger trusted []
  skip :
      {trusted : List Fields} {e : Fields} {es : List Fields}
      → is_v2 e ≡ false
      → IsJudged h ledger trusted es
      → IsJudged h ledger trusted (e ∷ es)
  accept :
      {trusted : List Fields} {e : Fields} {es : List Fields}
      → is_v2 e ≡ true
      → judge h ledger trusted e ≡ ok none
      → IsJudged h ledger (trusted ++ e ∷ []) es
      → IsJudged h ledger trusted (e ∷ es)

-- One round of the loop, by the test of the schema and the judgement, given the two ways to go on.
replay_step :
    (h : Host) (l : String) (i : ℕ) (trusted : List Fields) (e : Fields) (es : List Fields)
    (b : Bool) (j : Result LedgerError (Option Fault))
    → is_v2 e ≡ b
    → judge h l trusted e ≡ j
    → (verify_semantics_from h l (i + 1) trusted es ≡ ok [] → IsJudged h l trusted es)
    → (verify_semantics_from h l (i + 1) (trusted ++ e ∷ []) es ≡ ok []
        → IsJudged h l (trusted ++ e ∷ []) es)
    → verify_semantics_from h l i trusted (e ∷ es) ≡ ok []
    → IsJudged h l trusted (e ∷ es)
unfolding verify_semantics_from
replay_step h l i trusted e es false j eb ej leave keep q =
    skip eb (leave (rw (eb, verify_semantics_from) at q))
replay_step h l i trusted e es true (raise x) eb ej leave keep q =
    let q' : raise x ≡ ok [] = rw (eb, ej, verify_semantics_from) at q in cc
replay_step h l i trusted e es true (ok none) eb ej leave keep q =
    accept eb ej (keep (rw (eb, ej, verify_semantics_from) at q))
replay_step h l i trusted e es true (ok (some f)) eb ej leave keep q =
    let p =
      >>=-eq-ok (verify_semantics_from h l (i + 1) trusted es) (λ issues. ok (entry i f ∷ issues))
        (rw (eb, ej, verify_semantics_from) at q) in
    absurd (differ p.0 p.2)
  where
    differ :
        (issues : List Issue)
        → ◌≡◌ {A = Result LedgerError (List Issue)} (ok (entry i f ∷ issues)) (ok [])
        → ⊥
    differ issues d = cc

verify_semantics_from-IsJudged :
    (h : Host) (l : String) (i : ℕ) (trusted es : List Fields)
    → verify_semantics_from h l i trusted es ≡ ok []
    → IsJudged h l trusted es
verify_semantics_from-IsJudged h l i trusted [] p = finished
verify_semantics_from-IsJudged h l i trusted (e ∷ es) p =
    replay_step h l i trusted e es (is_v2 e) (judge h l trusted e) refl refl
      (verify_semantics_from-IsJudged h l (i + 1) trusted es)
      (verify_semantics_from-IsJudged h l (i + 1) (trusted ++ e ∷ []) es) p

pub verify_ledger_semantics-IsJudged :
    (h : Host) (ledger : String) (es : List Fields)
    → verify_ledger_semantics h ledger es ≡ ok []
    → IsJudged h ledger [] es
unfolding verify_ledger_semantics
verify_ledger_semantics-IsJudged h l es p = verify_semantics_from-IsJudged h l 0 [] es p

IsJudged-IsReplayed :
    (h : Host) (l : String) {trusted es : List Fields}
    → IsJudged h l trusted es
    → IsReplayed h l trusted es
IsJudged-IsReplayed h l finished = done
IsJudged-IsReplayed h l (skip v r) = old v (IsJudged-IsReplayed h l r)
IsJudged-IsReplayed h l (accept {trusted = t} {e = e} v j r) =
    trust v (judge-Fits h l t e j) (IsJudged-IsReplayed h l r)

-- If the replay of a ledger finds nothing, every v2 entry fits those before it: a registration has
-- the next attempt number of its key, as an integer or as what Python takes for it, a run has a package id that no earlier run has, and any
-- other entry follows a run of its package id and directory.
pub verify_ledger_semantics-IsReplayed :
    (h : Host) (ledger : String) (es : List Fields)
    → verify_ledger_semantics h ledger es ≡ ok []
    → IsReplayed h ledger [] es
verify_ledger_semantics-IsReplayed h l es p =
    IsJudged-IsReplayed h l (verify_ledger_semantics-IsJudged h l es p)
