-- ===== src/Supervisor/Rollback.antt =====
-- workflow_supervisor.py: what a rollback leaves, and where it raises.
use the_pass.Prelude.{
  ||-eq-false, String, Bool, true, false, ◌||◌, Option, none, some, List, [], ◌∷◌, ◌≡◌, ◌⊎◌, inl,
  inr, refl, sym, arith, ap, ◌∙◌, str_eq, eq_iff, mem_text, Bool-cases, Option-cases, is_nil,
}
use the_pass.Supervisor.Files.{
  folder, is_folder, seen, File, Node, regular, symlink, Tree, System, put,
}
use the_pass.Supervisor.Transaction.{
  Fault, rollback_error, Transaction, restored, restore, rollback,
}
use the_pass.Supervisor.Restores.{saved_paths, IsKept, put-folder, restored-not_folder}

-- Where a restoration raises, its path is a backup's, and its writes fail or a directory is there.
restore-raises :
    (w : System) (saved : List (String × Option File)) (tree : Tree) (f : Fault)
    → (restore w saved tree).1 ≡ some f
    → (r : String) × (f ≡ rollback_error r)
      × (mem_text r (saved_paths saved) ≡ true)
      × ((w.restore_fails r ≡ true) ⊎ (tree r ≡ some folder))
unfolding restore saved_paths
restore-raises w [] tree f h = cc
restore-raises w ((r, o) ∷ s) tree f h =
    elim (Bool-cases (w.restore_fails r || is_folder (tree r))) [
      | inl b ↦
          let q : some (rollback_error r) ≡ some f = rw (b, restore) at h in
          (r, sym (same q), here, why b)
      | inr b ↦
          let q = restore-raises w s (put r (restored o) tree) f (rw (b, restore) at h) in
          (
            q.0,
            q.1,
            later q.0 q.2,
            elim q.3 [
              | inl x ↦ inl x
              | inr x ↦ inr (put-folder r (restored o) tree q.0 (restored-not_folder o) x)
            ],
          )
    ]
  where
    same : {a b : Fault} → some a ≡ some b → a ≡ b
    same {a} {b} e = cc

    here : mem_text r (r ∷ saved_paths s) ≡ true
    here = rw ((eq_iff r r).1 refl) refl

    later : (q : String) → mem_text q (saved_paths s) ≡ true → mem_text q (r ∷ saved_paths s) ≡ true
    later q m = either (str_eq q r) _ m
      where
        either : (a b : Bool) → b ≡ true → (a || b) ≡ true
        either a b e = ground arith

    why :
        (w.restore_fails r || is_folder (tree r)) ≡ true
        → (w.restore_fails r ≡ true) ⊎ (tree r ≡ some folder)
    why b = elim (Bool-cases (w.restore_fails r)) [
      | inl x ↦ inl x
      | inr x ↦ inr (a_folder (tree r) (rw x at b))
    ]
      where
        a_folder : (n : Option Node) → is_folder n ≡ true → n ≡ some folder
        a_folder none e = cc
        a_folder (some folder) e = refl
        a_folder (some (regular f)) e = cc
        a_folder (some (symlink t)) e = cc

-- Restoring leaves the other paths alone, wherever it stops.
restore-apart :
    (w : System) (saved : List (String × Option File)) (tree : Tree) (p : String)
    → mem_text p (saved_paths saved) ≡ false
    → (restore w saved tree).0 p ≡ tree p
unfolding restore saved_paths
restore-apart w [] tree p h = refl
restore-apart w ((r, o) ∷ s) tree p h =
    let n = ||-eq-false (str_eq p r) _ h in
    elim (Bool-cases (w.restore_fails r || is_folder (tree r))) [
      | inl b ↦ rw (b, restore) refl
      | inr b ↦ rw (b, restore) (restore-apart w s (put r (restored o) tree) p n.1 ∙ rw n.0 refl)
    ]

-- The files and links of a workspace are what they were, or the rollback stopped with an exception
-- at a changed path that it could not write to, or at which a directory stood from the start.
pub data IsRestored (w : System) (t u : Transaction) (fault : Option Fault) : Type 0 where
  undone : ((p : String) → seen (u.caller p) ≡ seen (t.caller p)) → IsRestored w t u fault
  stuck :
      (r : String)
      → fault ≡ some (rollback_error r)
      → mem_text r t.changed_paths ≡ true
      → (w.restore_fails r ≡ true) ⊎ (t.caller r ≡ some folder)
      → IsRestored w t u fault

restore-nil :
    (w : System) (s : List (String × Option File)) (tree : Tree)
    → is_nil s ≡ true
    → restore w s tree ≡ (tree, none)
unfolding restore
restore-nil w [] tree e = refl
restore-nil w (b ∷ s) tree e = cc

-- The rollback of a transaction in progress, for every exception that is raised where it raises
-- none.
pub rollback-IsRestored :
    (w : System) (t u : Transaction) (other : Option Fault)
    → IsKept w t.caller t.changed_paths (record { tree = u.caller; saved = u.backups })
    → IsRestored w t (rollback w u).0 (elim (rollback w u).1 [ some e ↦ some e | none ↦ other ])
unfolding rollback
rollback-IsRestored w t u other k = elim (Bool-cases (is_nil u.backups)) [
  | inl e ↦
      let n = restore-nil w u.backups u.caller e in
      let i = sym (ap (λ x. x.0) n) ∙ k.restores (ap (λ x. x.1) n) in
      rw (e, rollback) (undone (λ p. ap (λ x. seen (x p)) i))
  | inr e ↦ elim (Option-cases (restore w u.backups u.caller).1) [
    | inl n ↦ let i = k.restores n in rw (e, n, rollback) (undone (λ p. ap (λ x. seen (x p)) i))
    | inr f ↦
        let q = restore-raises w u.backups u.caller f.0 f.1 in
        let why : (w.restore_fails q.0 ≡ true) ⊎ (t.caller q.0 ≡ some folder) = elim q.3 [
          | inl x ↦ inl x
          | inr x ↦ inr (k.folders q.0 x)
        ] in
        rw (e, f.1, rollback) (stuck q.0 (ap some q.1) (k.known q.0 q.2) why)
  ]
]

-- Neither does it change a path that is no changed path of the transaction.
pub rollback-apart :
    (w : System) (start : Tree) (changed : List String) (u : Transaction) (p : String)
    → IsKept w start changed (record { tree = u.caller; saved = u.backups })
    → mem_text p changed ≡ false
    → (rollback w u).0.caller p ≡ start p
unfolding rollback
rollback-apart w start changed u p k h = elim (Bool-cases (is_nil u.backups)) [
  | inl e ↦ rw (e, rollback) (k.apart p h)
  | inr e ↦
      let i = restore-apart w u.backups u.caller p unsaved ∙ k.apart p h in
      elim (Option-cases (restore w u.backups u.caller).1) [
        | inl n ↦ rw (e, n, rollback) i
        | inr f ↦ rw (e, f.1, rollback) i
      ]
]
  where
    unsaved : mem_text p (saved_paths u.backups) ≡ false
    unsaved = elim (Bool-cases (mem_text p (saved_paths u.backups))) [
      | inl b ↦ let e = sym (k.known p b) ∙ h in cc
      | inr b ↦ b
    ]
