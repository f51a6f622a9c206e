-- ===== src/Ledger/Gates.antt =====
-- What a replayed ledger says of its runs and of its gate decisions.
use mathlib.Core.Path.{subst}
use the_pass.Prelude.{
  ◌+◌, ◌≤◌, String, Bool, true, false, ◌&&◌, ◌||◌, List, [], ◌∷◌, ◌++◌, ◌≡◌, inl, inr, refl, arith,
  str_eq, eq_iff, any_of, any_of-append, count_of, Bool-cases, &&-eq-true,
}
use the_pass.Prelude.Result.{ok}
use the_pass.Json.{Value, null, text, Fields, get, is_text, text_or_empty, value_eq}
use the_pass.Json.Equality.{value_eq→eq}
use the_pass.Ledger.Host.{Host}
use the_pass.Ledger.Entries.{is_v2, is_kind}
use the_pass.Ledger.Semantics.{is_run_of, is_run_at, verify_ledger_semantics}
use the_pass.Ledger.Replay.{
  Fits, registration, run, decision, IsReplayed, done, old, trust,
  verify_ledger_semantics-IsReplayed,
}
use the_pass.Ledger.Append.{is_passage, has_passed_gate}

kinds_differ : (v : Value) → is_text "run" v ≡ true → is_text "robustness_registration" v ≡ false
kinds_differ null p = cc
kinds_differ (text t) p =
    subst (λ s. is_text "robustness_registration" (text s) ≡ false) ((eq_iff "run" t).0 p) refl
kinds_differ _ p = cc

count_of-eq-zero : (p : Fields → Bool) (xs : List Fields) → any_of p xs ≡ false → count_of p xs ≡ 0
count_of-eq-zero p [] h = refl
count_of-eq-zero p (x ∷ xs) h = ground (arith, count_of-eq-zero p xs)

count_of-append :
    (p : Fields → Bool) (xs ys : List Fields)
    → count_of p (xs ++ ys) ≡ count_of p xs + count_of p ys
count_of-append p [] ys = omega arith
count_of-append p (x ∷ xs) ys = omega (arith, count_of-append p xs ys)

is_run_of-parts :
    (id : Value) (e : Fields)
    → is_run_of id e ≡ true
    → (is_kind "run" e ≡ true) × (get "package_id" e ≡ id)
is_run_of-parts id e r =
    let p = &&-eq-true (is_v2 e && is_kind "run" e) (value_eq (get "package_id" e) id) r in
    ((&&-eq-true (is_v2 e) (is_kind "run" e) p.0).1, value_eq→eq (get "package_id" e) id p.1)

-- A run that fits is the first of its package id.
Fits-run :
    (h : Host) (l : String) (trusted : List Fields) (e : Fields) (id : Value)
    → Fits h l trusted e
    → is_run_of id e ≡ true
    → count_of (is_run_of id) trusted ≡ 0
Fits-run h l trusted e id (registration k n) r =
    let d = kinds_differ (get "entry_kind" e) (is_run_of-parts id e r).0 in cc
Fits-run h l trusted e id (run k n) r =
    count_of-eq-zero (is_run_of id) trusted (rw (is_run_of-parts id e r).1 at n)
Fits-run h l trusted e id (decision k k' n) r = let p = (is_run_of-parts id e r).0 in cc

Fits-bound :
    (h : Host) (l : String) (trusted : List Fields) (e : Fields) (id : Value)
    → Fits h l trusted e
    → count_of (is_run_of id) trusted ≤ 1
    → count_of (is_run_of id) (trusted ++ e ∷ []) ≤ 1
Fits-bound h l trusted e id f b =
    rw (count_of-append (is_run_of id) trusted (e ∷ [])) (elim (Bool-cases (is_run_of id e)) [
      | inl r ↦ rw r (omega (arith, Fits-run h l trusted e id f r))
      | inr r ↦ rw r (omega arith)
    ])

IsReplayed-unique :
    (h : Host) (l : String) (id : Value) {trusted es : List Fields}
    → IsReplayed h l trusted es
    → count_of (is_run_of id) trusted ≤ 1
    → count_of (is_run_of id) es + count_of (is_run_of id) trusted ≤ 1
IsReplayed-unique h l id done b = omega arith
IsReplayed-unique h l id (old {e = e} {es = es} v r) b =
    let p = IsReplayed-unique h l id r b in rw v (omega arith)
IsReplayed-unique h l id (trust {trusted = t} {e = e} {es = es} v f r) b =
    let p = IsReplayed-unique h l id r (Fits-bound h l t e id f b) in
    let q = count_of-append (is_run_of id) t (e ∷ []) in omega arith

-- A ledger whose replay finds nothing holds at most one v2 run of each package id.
pub verify_ledger_semantics-unique_runs :
    (h : Host) (ledger : String) (es : List Fields) (package_id : Value)
    → verify_ledger_semantics h ledger es ≡ ok []
    → count_of (is_run_of package_id) es ≤ 1
verify_ledger_semantics-unique_runs h l es id p =
    let q = IsReplayed-unique h l id (verify_ledger_semantics-IsReplayed h l es p) (omega arith) in
    omega arith

-- What a passage shows of its entry.
record IsPassage (h : Host) (l : String) (id : String) (dir : String) (e : Fields) : Type 0 where
  decided : is_kind "gate_decision" e ≡ true
  package_id : get "package_id" e ≡ text id
  directory : h.beside l (text_or_empty (get "package_path" e)) ≡ dir

is_text-eq : (s : String) (v : Value) → is_text s v ≡ true → v ≡ text s
is_text-eq s null p = cc
is_text-eq s (text t) p = cc ((eq_iff s t).0 p)
is_text-eq s _ p = cc

is_passage-IsPassage :
    (h : Host) (l id gate dir : String) (e : Fields)
    → is_passage h l id gate dir e ≡ true
    → IsPassage h l id dir e
is_passage-IsPassage h l id gate dir e p =
    let a = &&-eq-true _ (str_eq (h.beside l (text_or_empty (get "package_path" e))) dir) p in
    let b = &&-eq-true _ (is_text "pass" (get "gate_result" e)) a.0 in
    let c = &&-eq-true _ (is_text gate (get "gate" e)) b.0 in
    let d = &&-eq-true _ (is_text id (get "package_id" e)) c.0 in
    record {
      decided = (&&-eq-true (is_v2 e) (is_kind "gate_decision" e) d.0).1;
      package_id = is_text-eq id (get "package_id" e) d.1;
      directory = (eq_iff (h.beside l (text_or_empty (get "package_path" e))) dir).0 a.1;
    }

kind_is_one :
    (v : Value) (s t : String) → str_eq s t ≡ false → is_text s v ≡ true → is_text t v ≡ true → ⊥
kind_is_one v s t d p q =
    let e = is_text-eq s v p in
    let f = is_text-eq t v q in let g : s ≡ t = cc in let y = (eq_iff s t).1 g in cc

Fits-passage :
    (h : Host) (l id dir : String) (trusted : List Fields) (e : Fields)
    → Fits h l trusted e
    → IsPassage h l id dir e
    → any_of (is_run_at h l (text id) dir) trusted ≡ true
Fits-passage h l id dir trusted e (registration k n) p =
    absurd
      (kind_is_one (get "entry_kind" e) "gate_decision" "robustness_registration" refl p.decided k)
Fits-passage h l id dir trusted e (run k n) p =
    absurd (kind_is_one (get "entry_kind" e) "gate_decision" "run" refl p.decided k)
Fits-passage h l id dir trusted e (decision k k' n) p = rw (p.directory, p.package_id) at n

old_run : (a b c : Bool) → a || c ≡ true → a || (b || c) ≡ true
old_run a b c q = ground arith

-- What `or` makes of a new entry, first where it is a passage and then where it is not.
new_passage : (a b c : Bool) → a ≡ true → a || (b || c) ≡ true
new_passage a b c q = ground arith

new_other : (a b c d : Bool) → d ≡ a || (b || false) → d || c ≡ true → a || (b || c) ≡ true
new_other a b c d q w = ground arith

IsReplayed-passage :
    (h : Host) (l id gate dir : String) {trusted es : List Fields}
    → IsReplayed h l trusted es
    → any_of (is_passage h l id gate dir) es ≡ true
    → any_of (is_run_at h l (text id) dir) trusted || any_of (is_run_at h l (text id) dir) es ≡ true
IsReplayed-passage h l id gate dir done p = cc
IsReplayed-passage h l id gate dir (old {trusted = t} {e = e} {es = es} v r) p =
    old_run (any_of (is_run_at h l (text id) dir) t) (is_run_at h l (text id) dir e) _
      (IsReplayed-passage h l id gate dir r (rw v at p))
IsReplayed-passage h l id gate dir (trust {trusted = t} {e = e} {es = es} v f r) p =
    elim (Bool-cases (is_passage h l id gate dir e)) [
      | inl q ↦
          new_passage _ (is_run_at h l (text id) dir e) _
            (Fits-passage h l id dir t e f (is_passage-IsPassage h l id gate dir e q))
      | inr q ↦
          new_other _ (is_run_at h l (text id) dir e) _ _
            (any_of-append (is_run_at h l (text id) dir) t (e ∷ []))
            (IsReplayed-passage h l id gate dir r (rest (is_passage h l id gate dir e) _ q p))
    ]
  where
    rest : (a b : Bool) → a ≡ false → a || b ≡ true → b ≡ true
    rest a b x y = ground arith

-- In a ledger whose replay finds nothing, a gate that has passed for a package has the package's
-- run in the ledger, at the same directory.
pub has_passed_gate-recorded :
    (h : Host) (ledger : String) (es : List Fields) (package_id gate package_dir : String)
    → verify_ledger_semantics h ledger es ≡ ok []
    → has_passed_gate h ledger es package_id gate package_dir ≡ true
    → any_of (is_run_at h ledger (text package_id) package_dir) es ≡ true
unfolding has_passed_gate
has_passed_gate-recorded h l es id gate dir v p =
    IsReplayed-passage h l id gate dir (verify_ledger_semantics-IsReplayed h l es v) p
