-- ===== src/Supervisor/Scoped.antt =====
-- What a prepared transaction may change in the caller's workspace.
use the_pass.Prelude.{
  String, Bool, true, false, not, ◌&&◌, List, [], ◌∷◌, ◌≡◌, ◌⊎◌, inl, inr, refl, sym, ap, ◌∙◌,
  arith, mem_text, str_eq, eq_iff, lookup, Bool-cases, not-eq-false,
}
use the_pass.Prelude.Result.{Result, ok, >>=-eq-ok, >>-eq-ok, raise_if-eq-ok}
use the_pass.Supervisor.Files.{FileState, System}
use the_pass.Supervisor.Transaction.{Transaction, commit, cleanup, apply}
use the_pass.Supervisor.Atomic.{apply-apart}
use the_pass.Supervisor.Remap.{Paths}
use the_pass.Supervisor.Scope.{
  ScopeError, Candidate, is_evidence, is_in_package, is_parent_owned, may_review,
  is_regular_or_gone, check_path, check_paths, prepare,
}

-- A path that an agent may change.
pub record InScope (x : Paths) (c : Candidate) (observed : List (String × FileState)) (p : String)
    : Type 0 where
  pub unprotected : mem_text p c.protected_paths ≡ false
  pub not_parent_owned : is_parent_owned (c.name p) ≡ false
  pub declared : (is_evidence x c p ≡ true) ⊎ (is_in_package x c p ≡ true)
  pub reviewed : is_in_package x c p ≡ true → may_review c.stage (c.name p) ≡ true
  pub regular : is_regular_or_gone (lookup p observed) ≡ true

check_path-InScope :
    (x : Paths) (c : Candidate) (observed : List (String × FileState)) (p : String)
    → check_path x c observed p ≡ ok tt
    → InScope x c observed p
unfolding check_path
check_path-InScope x c observed p h =
    let a = >>-eq-ok _ _ h in
    let b = >>-eq-ok _ _ a.1 in
    let d = >>-eq-ok _ _ b.1 in
    let e = >>-eq-ok _ _ d.1 in
    record {
      unprotected = raise_if-eq-ok _ _ a.0;
      not_parent_owned = raise_if-eq-ok _ _ b.0;
      declared = either _ _ (raise_if-eq-ok _ _ e.0);
      reviewed = λ k. only _ _ (raise_if-eq-ok _ _ d.0) k;
      regular = not-eq-false _ (raise_if-eq-ok _ _ e.1);
    }
  where
    either : (u v : Bool) → not u && not v ≡ false → (u ≡ true) ⊎ (v ≡ true)
    either true v q = inl refl
    either false v q = inr (not-eq-false v q)

    only : (u v : Bool) → u && not v ≡ false → u ≡ true → v ≡ true
    only u v q k = ground arith

check_paths-InScope :
    (x : Paths) (c : Candidate) (observed : List (String × FileState)) (rs : List String)
    (p : String)
    → check_paths x c observed rs ≡ ok tt
    → mem_text p rs ≡ true
    → InScope x c observed p
unfolding check_paths
check_paths-InScope x c observed [] p h m = cc
check_paths-InScope x c observed (r ∷ rs) p h m =
    let a = >>-eq-ok _ _ h in
    elim (Bool-cases (str_eq p r)) [
      | inl e ↦
          let q = (eq_iff p r).0 e in
          check_path-InScope x c observed p (ap (check_path x c observed) q ∙ a.0)
      | inr e ↦ check_paths-InScope x c observed rs p a.1 (rw e at m)
    ]

prepare-checks :
    (x : Paths) (c : Candidate) (baseline observed : List (String × FileState))
    (changed : List String)
    → prepare x c baseline observed ≡ ok changed
    → check_paths x c observed changed ≡ ok tt
unfolding prepare
prepare-checks x c baseline observed changed h =
    let a = >>=-eq-ok _ _ h in let e = same _ _ a.2 in ap (check_paths x c observed) (sym e) ∙ a.1
  where
    same : (u v : List String) → ◌≡◌ {A = Result ScopeError (List String)} (ok u) (ok v) → u ≡ v
    same u v q = cc

-- If `prepare` accepts the paths that an agent changed, and these are the changed paths of a
-- transaction without backups, then after `apply` and a commit every path of the caller's workspace
-- is as it was, or is one that the agent may change: not protected, no gate decision or reviewer
-- attestation, declared as evidence or inside the package, at a review stage the stage's own report
-- if it is in the package, and a regular file or gone.
pub prepare-InScope :
    (x : Paths) (c : Candidate) (baseline observed : List (String × FileState)) (w : System)
    (t : Transaction)
    → prepare x c baseline observed ≡ ok t.changed_paths
    → t.backups ≡ []
    → (p : String)
    → ((cleanup w (commit (apply w t).0)).0.caller p ≡ t.caller p) ⊎ InScope x c observed p
unfolding commit cleanup
prepare-InScope x c baseline observed w t h b p = elim (Bool-cases (mem_text p t.changed_paths)) [
  | inl m ↦ inr (
      check_paths-InScope x c observed t.changed_paths p (prepare-checks x c baseline observed _ h)
        m)
  | inr m ↦ inl (apply-apart w t p b m)
]
