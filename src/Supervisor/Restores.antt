-- ===== src/Supervisor/Restores.antt =====
-- workflow_supervisor.py: what the backups of a transaction restore.
use mathlib.Core.Path.{fun_ext}
use the_pass.Prelude.{
  ◌≢◌, ||-eq-false, String, Bool, true, false, ◌||◌, Option, none, some, List, [], ◌∷◌, ◌≡◌, inl,
  inr, refl, sym, arith, ap, ◌∙◌, str_eq, eq_iff, mem_text, Bool-cases, Option-cases,
}
use the_pass.Supervisor.Files.{folder, is_folder, File, Node, regular, symlink, Tree, System, put}
use the_pass.Supervisor.Transaction.{
  Progress, restored, copy_path, apply_path, apply_paths, restore,
}

-- The paths of the backups.
unfoldable pub saved_paths : List (String × Option File) → List String
saved_paths [] = []
saved_paths ((r, o) ∷ s) = r ∷ saved_paths s

-- The workspace `start` is what the backups restore, unless a restoration raises.
abbrev pub Restores : System → Tree → Progress → Type 0
Restores w start g = (restore w g.saved g.tree).1 ≡ none → (restore w g.saved g.tree).0 ≡ start

-- What `apply` keeps of the workspace that it started from.
pub record IsKept (w : System) (start : Tree) (changed : List String) (g : Progress) : Type 0 where
  pub restores : Restores w start g
  pub folders : (q : String) → g.tree q ≡ some folder → start q ≡ some folder
  pub apart : (q : String) → mem_text q changed ≡ false → g.tree q ≡ start q
  pub known : (q : String) → mem_text q (saved_paths g.saved) ≡ true → mem_text q changed ≡ true

pub put-folder :
    (r : String) (x : Option Node) (tree : Tree) (q : String)
    → x ≢ some folder
    → put r x tree q ≡ some folder
    → tree q ≡ some folder
put-folder r x tree q n h = elim (Bool-cases (str_eq q r)) [
  | inl b ↦ absurd (n (rw b at h))
  | inr b ↦ rw b at h
]

regular-not_folder : (f : File) → some (regular f) ≢ some folder
regular-not_folder f e = cc

none-not_folder : none ≢ some folder
none-not_folder e = cc

pub restored-not_folder : (o : Option File) → restored o ≢ some folder
restored-not_folder none e = cc
restored-not_folder (some f) e = cc

-- A node that stands where it stood.
put_same : (r : String) (x : Option Node) (tree : Tree) → tree r ≡ x → put r x tree ≡ tree
put_same r x tree e = fun_ext λ q. elim (Bool-cases (str_eq q r)) [
  | inl b ↦ rw b (sym e ∙ ap tree (sym ((eq_iff q r).0 b)))
  | inr b ↦ rw b refl
]

put_back :
    (r : String) (x y : Option Node) (tree : Tree) → tree r ≡ x → put r x (put r y tree) ≡ tree
put_back r x y tree e = fun_ext λ q. elim (Bool-cases (str_eq q r)) [
  | inl b ↦ rw b (sym e ∙ ap tree (sym ((eq_iff q r).0 b)))
  | inr b ↦ rw b refl
]

-- A backup of what stood at a path, before a workspace that differs there at most.
restore-saved :
    (w : System) (start tree other : Tree) (saved : List (String × Option File)) (r : String)
    (o : Option File)
    → Restores w start (record { tree = tree; saved = saved })
    → (is_folder (other r) ≡ false → put r (restored o) other ≡ tree)
    → Restores w start (record { tree = other; saved = (r, o) ∷ saved })
unfolding restore
restore-saved w start tree other saved r o h m k =
    elim (Bool-cases (w.restore_fails r || is_folder (other r))) [
      | inl b ↦ let q = rw (b, restore) at k in cc
      | inr b ↦
          let e = m (||-eq-false _ _ b).1 in
          let j : (restore w saved (put r (restored o) other)).1 ≡ none = rw (b, restore) at k in
          let i = h (ap (λ t. (restore w saved t).1) (sym e) ∙ j) in
          rw (b, restore) (ap (λ t. (restore w saved t).0) e ∙ i)
    ]

-- A round that saves a path, and leaves the workspace or has put a file or nothing there.
IsKept-saved :
    (w : System) (start : Tree) (changed : List String) (r : String) (g : Progress)
    (o : Option File) (other : Tree)
    → mem_text r changed ≡ true
    → IsKept w start changed g
    → (is_folder (other r) ≡ false → put r (restored o) other ≡ g.tree)
    → ((q : String) → other q ≡ some folder → g.tree q ≡ some folder)
    → ((q : String) → str_eq q r ≡ false → other q ≡ g.tree q)
    → IsKept w start changed (record { tree = other; saved = (r, o) ∷ g.saved })
unfolding saved_paths
IsKept-saved w start changed r g o other m k e f i = record {
  restores = restore-saved w start g.tree other g.saved r o k.restores e;
  folders = λ q h. k.folders q (f q h);
  apart = λ q h. i q (distinct q h) ∙ k.apart q h;
  known = λ q h. elim (Bool-cases (str_eq q r)) [
    | inl b ↦ ap (λ x. mem_text x changed) ((eq_iff q r).0 b) ∙ m
    | inr b ↦ k.known q (rw b at h)
  ];
}
  where
    distinct : (q : String) → mem_text q changed ≡ false → str_eq q r ≡ false
    distinct q h = elim (Bool-cases (str_eq q r)) [
      | inl b ↦ let e = sym (ap (λ x. mem_text x changed) ((eq_iff q r).0 b) ∙ m) ∙ h in cc
      | inr b ↦ b
    ]

copied-IsKept :
    (w : System) (worktree start : Tree) (changed : List String) (r : String) (g : Progress)
    (o : Option File)
    → mem_text r changed ≡ true
    → IsKept w start changed g
    → (is_folder (g.tree r) ≡ false → g.tree r ≡ restored o)
    → IsKept w start changed (copy_path w worktree r g o).0
unfolding copy_path
copied-IsKept w worktree start changed r g o m k e =
    go (worktree r) refl (w.fails r || is_folder (g.tree r)) refl
  where
    kept : IsKept w start changed (record { tree = g.tree; saved = (r, o) ∷ g.saved })
    kept =
        IsKept-saved w start changed r g o g.tree m k (λ n. put_same r (restored o) g.tree (e n))
          (λ q h. h) (λ q h. refl)

    written :
        (x : Option Node)
        → x ≢ some folder
        → (w.fails r || is_folder (g.tree r)) ≡ false
        → IsKept w start changed (record { tree = put r x g.tree; saved = (r, o) ∷ g.saved })
    written x n b =
        IsKept-saved w start changed r g o (put r x g.tree) m k
          (λ i.
            put_back r (restored o) x g.tree
              (e (||-eq-false (w.fails r) (is_folder (g.tree r)) b).1))
          (λ q h. put-folder r x g.tree q n h) (λ q h. rw h refl)

    go :
        (x : Option Node)
        → worktree r ≡ x
        → (b : Bool) → (w.fails r || is_folder (g.tree r)) ≡ b
        → IsKept w start changed (copy_path w worktree r g o).0
    go (some (symlink t)) i b l = rw (i, copy_path) kept
    go (some folder) i b l = rw (i, copy_path) kept
    go (some (regular f)) i true l = rw (i, l, copy_path) kept
    go (some (regular f)) i false l =
        rw (i, l, copy_path) (written (some (regular f)) (λ z. regular-not_folder f z) l)
    go none i true l = rw (i, l, copy_path) kept
    go none i false l = rw (i, l, copy_path) (written none none-not_folder l)

-- A round keeps the workspace restorable, whether it raises or not.
apply_path-IsKept :
    (w : System) (worktree start : Tree) (changed : List String) (r : String) (g : Progress)
    → mem_text r changed ≡ true
    → IsKept w start changed g
    → IsKept w start changed (apply_path w worktree r g).0
unfolding apply_path
apply_path-IsKept w worktree start changed r g m k = go (g.tree r) refl
  where
    go : (x : Option Node) → g.tree r ≡ x → IsKept w start changed (apply_path w worktree r g).0
    go (some (symlink t)) e = rw (e, apply_path) k
    go (some (regular f)) e =
        rw (e, apply_path) (copied-IsKept w worktree start changed r g (some f) m k (λ n. e))
    go (some folder) e =
        rw (e, apply_path)
          (copied-IsKept w worktree start changed r g none m k (λ n. let z = rw e at n in cc))
    go none e = rw (e, apply_path) (copied-IsKept w worktree start changed r g none m k (λ n. e))

pub apply_paths-IsKept :
    (w : System) (worktree start : Tree) (changed rs : List String) (g : Progress)
    → ((q : String) → mem_text q rs ≡ true → mem_text q changed ≡ true)
    → IsKept w start changed g
    → IsKept w start changed (apply_paths w worktree rs g).0
unfolding apply_paths
apply_paths-IsKept w worktree start changed [] g s k = k
apply_paths-IsKept w worktree start changed (r ∷ rs) g s k =
    let i = apply_path-IsKept w worktree start changed r g (s r (first r rs)) k in
    elim (Option-cases (apply_path w worktree r g).1) [
      | inl n ↦
          rw (n, apply_paths)
            (apply_paths-IsKept w worktree start changed rs _ (λ q m. s q (later q m)) i)
      | inr f ↦ rw (f.1, apply_paths) i
    ]
  where
    first : (q : String) (l : List String) → mem_text q (q ∷ l) ≡ true
    first q l = rw ((eq_iff q q).1 refl) refl

    either : (a b : Bool) → b ≡ true → (a || b) ≡ true
    either a b e = ground arith

    later : (q : String) → mem_text q rs ≡ true → mem_text q (r ∷ rs) ≡ true
    later q m = either (str_eq q r) _ m
