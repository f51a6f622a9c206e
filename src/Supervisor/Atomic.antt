-- ===== src/Supervisor/Atomic.antt =====
-- What a transaction does to the caller's workspace: all of the changes or none, unless its rollback
-- raises.
use the_pass.Prelude.{
  String, Bool, true, false, not, ◌||◌, Option, none, some, List, [], ◌∷◌, ◌≡◌, inl, inr, refl, sym,
  ap, ◌∙◌, str_eq, eq_iff, find_first, mem_text, Option-cases, if◌then◌else◌,
}
use the_pass.Supervisor.Files.{
  folder, is_folder, seen, File, Node, regular, symlink, Tree, System, put, tree_snapshot, state_eq,
}
use the_pass.Supervisor.Restores.{saved_paths, IsKept, apply_paths-IsKept}
use the_pass.Supervisor.Rollback.{IsRestored, undone, rollback-IsRestored, rollback-apart}
use the_pass.Supervisor.Transaction.{
  Fault, workspace_changed, Transaction, Progress, copy_path, apply_path, apply_paths, restore,
  rollback, commit, cleanup, apply,
}

-- The workspace with what the worktree has at the changed paths.
abbrev pub overlay : List String → Tree → Tree → Tree
overlay changed worktree tree = λ p. if mem_text p changed then worktree p else tree p

-- A round that does not raise puts the worktree's node at its path.
copy_path-puts :
    (w : System) (worktree : Tree) (r : String) (g : Progress) (o : Option File)
    → (copy_path w worktree r g o).1 ≡ none
    → (copy_path w worktree r g o).0.tree ≡ put r (worktree r) g.tree
unfolding copy_path
copy_path-puts w worktree r g o h = go (worktree r) refl (w.fails r || is_folder (g.tree r)) refl
  where
    go :
        (x : Option Node)
        → worktree r ≡ x
        → (b : Bool) → (w.fails r || is_folder (g.tree r)) ≡ b
        → (copy_path w worktree r g o).0.tree ≡ put r (worktree r) g.tree
    go (some (symlink t)) k b l = let q = rw (k, copy_path) at h in cc
    go (some folder) k b l = let q = rw (k, copy_path) at h in cc
    go (some (regular f)) k true l = let q = rw (k, l, copy_path) at h in cc
    go (some (regular f)) k false l = rw (k, l, copy_path) refl
    go none k true l = let q = rw (k, l, copy_path) at h in cc
    go none k false l = rw (k, l, copy_path) refl

apply_path-puts :
    (w : System) (worktree : Tree) (r : String) (g : Progress)
    → (apply_path w worktree r g).1 ≡ none
    → (apply_path w worktree r g).0.tree ≡ put r (worktree r) g.tree
unfolding apply_path
apply_path-puts w worktree r g h = go (g.tree r) refl
  where
    go :
        (x : Option Node)
        → g.tree r ≡ x
        → (apply_path w worktree r g).0.tree ≡ put r (worktree r) g.tree
    go (some (symlink t)) e = let q = rw (e, apply_path) at h in cc
    go (some (regular f)) e =
        rw (e, apply_path) (copy_path-puts w worktree r g (some f) (rw (e, apply_path) at h))
    go (some folder) e =
        rw (e, apply_path) (copy_path-puts w worktree r g none (rw (e, apply_path) at h))
    go none e = rw (e, apply_path) (copy_path-puts w worktree r g none (rw (e, apply_path) at h))

apply_paths-overlays :
    (w : System) (worktree : Tree) (rs : List String) (g : Progress)
    → (apply_paths w worktree rs g).1 ≡ none
    → (p : String) → (apply_paths w worktree rs g).0.tree p ≡ overlay rs worktree g.tree p
unfolding apply_paths
apply_paths-overlays w worktree [] g h p = refl
apply_paths-overlays w worktree (r ∷ rs) g h p = elim (Option-cases (apply_path w worktree r g).1) [
  | inr f ↦ let q = rw (f.1, apply_paths) at h in cc
  | inl n ↦
      let k =
        apply_paths-overlays w worktree rs (apply_path w worktree r g).0 (rw (n, apply_paths) at h)
          p in
      let m = ap (λ t. t p) (apply_path-puts w worktree r g n) in
      rw (n, apply_paths) (k ∙ rw m (joins (str_eq p r) (mem_text p rs) refl))
]
  where
    joins :
        (a b : Bool)
        → str_eq p r ≡ a
        → (if b then worktree p else if a then worktree r else g.tree p)
          ≡ (if a || b then worktree p else g.tree p)
    joins true true e = refl
    joins true false e = ap worktree (sym ((eq_iff p r).0 e))
    joins false true e = refl
    joins false false e = refl

-- The two ends of a call of `apply`.
pub data IsAtomic (w : System) (t : Transaction) : Type 0 where
  raised :
      {f : Fault}
      → (apply w t).1 ≡ some f
      → IsRestored w t (apply w t).0 (apply w t).1
      → IsAtomic w t
  succeeded :
      (apply w t).1 ≡ none
      → ((p : String)
          → seen ((cleanup w (commit (apply w t).0)).0.caller p)
            ≡ seen (overlay t.changed_paths t.worktree t.caller p))
      → IsRestored w t (cleanup w (apply w t).0).0 (cleanup w (apply w t).0).1
      → IsAtomic w t

-- The loop of `apply` for the changed paths.
abbrev changed : System → Transaction → Progress × Option Fault
changed w t =
    apply_paths w t.worktree t.changed_paths (record { tree = t.caller; saved = t.backups })

-- The loop of `apply` on a transaction without backups.
pub changed-IsKept :
    (w : System) (t : Transaction)
    → t.backups ≡ []
    → IsKept w t.caller t.changed_paths
        (apply_paths w t.worktree t.changed_paths (record { tree = t.caller; saved = t.backups })).0
unfolding restore saved_paths
changed-IsKept w t b =
    apply_paths-IsKept w t.worktree t.caller t.changed_paths t.changed_paths
      (record { tree = t.caller; saved = t.backups }) (λ q m. m)
      (record {
        restores = λ n. rw (b, restore) refl;
        folders = λ q h. h;
        apart = λ q h. refl;
        known = λ q h. let z = rw (b, saved_paths) at h in cc;
      })

rollback-none :
    (w : System) (t u : Transaction)
    → IsRestored w t (rollback w u).0 (elim (rollback w u).1 [ some e ↦ some e | none ↦ none ])
    → IsRestored w t (rollback w u).0 (rollback w u).1
rollback-none w t u i = elim (Option-cases (rollback w u).1) [
  | inl n ↦ rw n (rw n at i)
  | inr f ↦ rw (f.1) (rw (f.1) at i)
]

-- A transaction without backups either raises in `apply`, or `apply` succeeds and a commit leaves the
-- files and links of the caller's workspace with what the worktree has at every changed path and what
-- it had at the others. Where `apply` raises, and where a clean-up follows it without a commit, the
-- workspace has the files and links that it had before, or the rollback raised as well: at a changed
-- path that it failed to write or unlink, or at which a directory stood before the call.
pub apply-IsAtomic : (w : System) (t : Transaction) → t.backups ≡ [] → IsAtomic w t
unfolding apply cleanup commit
apply-IsAtomic w t b =
    elim (Option-cases (
      find_first (λ r. not (state_eq (tree_snapshot w (λ p. false) t.caller r) (t.baseline r)))
        t.changed_paths)) [
          | inr r ↦
              raised {f = workspace_changed r.0} (rw (r.1, apply) refl)
                (rw (r.1, apply) (undone (λ p. refl)))
          | inl n ↦
              elim (Option-cases
                (apply_paths w t.worktree t.changed_paths
                  (record { tree = t.caller; saved = t.backups })).1) [
                    | inr f ↦
                        let k = rollback-IsRestored w t _ (some f.0) (changed-IsKept w t b) in
                        elim (Option-cases
                          (rollback w (record t {
                            caller = (changed w t).0.tree;
                            backups = (changed w t).0.saved;
                          })).1) [
                            | inl c ↦
                                raised {f = f.0} (rw (n, f.1, c, apply) refl) (rw (n, f.1, apply) k)
                            | inr c ↦
                                raised {f = c.0} (rw (n, f.1, c.1, apply) refl)
                                  (rw (n, f.1, apply) k)
                          ]
                    | inl m ↦
                        succeeded (rw (n, m, apply) refl)
                          (λ p.
                            rw (n, m, apply)
                              (ap seen (apply_paths-overlays w t.worktree t.changed_paths _ m p)))
                          (rw (n, m, apply)
                            (rollback-none w t _
                              (rollback-IsRestored w t _ none (changed-IsKept w t b))))
                  ]
        ]

-- A path that is no changed path keeps what was there, whether `apply` or its rollback raises or not.
pub apply-apart :
    (w : System) (t : Transaction) (p : String)
    → t.backups ≡ []
    → mem_text p t.changed_paths ≡ false
    → (apply w t).0.caller p ≡ t.caller p
unfolding apply
apply-apart w t p b h =
    let k = changed-IsKept w t b in
    elim (Option-cases (
      find_first (λ r. not (state_eq (tree_snapshot w (λ p. false) t.caller r) (t.baseline r)))
        t.changed_paths)) [
          | inr r ↦ rw (r.1, apply) refl
          | inl n ↦ elim (Option-cases (changed w t).1) [
            | inr f ↦ rw (n, f.1, apply) (rollback-apart w t.caller t.changed_paths _ p k h)
            | inl m ↦ rw (n, m, apply) (k.apart p h)
          ]
        ]
