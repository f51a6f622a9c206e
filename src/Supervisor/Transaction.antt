-- ===== src/Supervisor/Transaction.antt =====
-- workflow_supervisor.py: `_IsolatedWorkflowTransaction`, from the changed paths on.
use the_pass.Prelude.{
  String, Bool, true, false, not, ◌||◌, Option, none, some, List, [], ◌∷◌, find_first, is_nil,
  if◌then◌else◌,
}
use the_pass.Supervisor.Files.{
  File, Node, regular, symlink, Tree, System, FileState, tree_snapshot, state_eq, put, folder,
  is_folder,
}

-- The `WorkflowSupervisorError`s of `apply`, each with its path, and an `OSError` of its writes and
-- one of the writes of `rollback`.
pub data Fault : Type 0 where
  workspace_changed : String → Fault
  target_is_symlink : String → Fault
  output_not_regular : String → Fault
  system_error : String → Fault
  rollback_error : String → Fault

-- The backups in the order of `rollback`, the newest first: the changed paths are a set.
pub record Transaction : Type 0 where
  pub caller : Tree
  pub worktree : Tree
  pub baseline : String → Option FileState
  pub changed_paths : List String
  pub backups : List (String × Option File)
  pub applied : Bool

-- The caller's workspace and the backups while `apply` runs.
pub record Progress : Type 0 where
  pub tree : Tree
  pub saved : List (String × Option File)

-- What a backup puts back: nothing where there was no file.
abbrev pub restored : Option File → Option Node
restored none = none
restored (some f) = some (regular f)

-- The round of the loop of `apply` from the backup on. A directory is neither replaced by a file nor
-- unlinked. The directories that `mkdir` makes on the way to a target are not recorded.
unfoldable pub copy_path : System → Tree → String → Progress → Option File → Progress × Option Fault
copy_path w worktree relative g backup =
    let kept : Progress = record { tree = g.tree; saved = (relative, backup) ∷ g.saved } in
    elim (worktree relative) [
      | some (symlink t) ↦ (kept, some (output_not_regular relative))
      | some folder ↦ (kept, some (output_not_regular relative))
      | some (regular f) ↦
          if w.fails relative || is_folder (g.tree relative)
          then (kept, some (system_error relative))
          else (record kept { tree = put relative (some (regular f)) g.tree }, none)
      | none ↦
          if w.fails relative || is_folder (g.tree relative)
          then (kept, some (system_error relative))
          else (record kept { tree = put relative none g.tree }, none)
    ]

unfoldable pub apply_path : System → Tree → String → Progress → Progress × Option Fault
apply_path w worktree relative g = elim (g.tree relative) [
  | some (symlink t) ↦ (g, some (target_is_symlink relative))
  | some (regular f) ↦ copy_path w worktree relative g (some f)
  | some folder ↦ copy_path w worktree relative g none
  | none ↦ copy_path w worktree relative g none
]

-- The loop, up to the first exception.
unfoldable pub apply_paths : System → Tree → List String → Progress → Progress × Option Fault
apply_paths w worktree [] g = (g, none)
apply_paths w worktree (r ∷ rs) g =
    let (h, fault) = apply_path w worktree r g in
    elim fault [ some f ↦ (h, some f) | none ↦ apply_paths w worktree rs h ]

-- The restoring loop of `rollback`, up to the first exception. A directory is neither unlinked nor
-- written to.
unfoldable pub restore : System → List (String × Option File) → Tree → Tree × Option Fault
restore w [] tree = (tree, none)
restore w ((relative, backup) ∷ r) tree =
    let rest = restore w r (put relative (restored backup) tree) in
    if w.restore_fails relative || is_folder (tree relative)
    then (tree, some (rollback_error relative))
    else rest

-- The backups stay where the loop raises.
unfoldable pub rollback : System → Transaction → Transaction × Option Fault
rollback w t =
    if is_nil t.backups
    then (t, none)
    else let (tree, fault) = restore w t.backups t.caller in
      elim fault [
        | some f ↦ (record t { caller = tree }, some f)
        | none ↦ (record t { caller = tree; backups = []; applied = false }, none)
      ]

unfoldable pub commit : Transaction → Transaction
commit t = record t { backups = []; applied = false }

-- The part of `cleanup` that concerns the caller's workspace.
unfoldable pub cleanup : System → Transaction → Transaction × Option Fault
cleanup w t = if t.applied then rollback w t else (t, none)

-- The transaction after the call, and the exception if there is one: that of the rollback, if it
-- raises.
unfoldable pub apply : System → Transaction → Transaction × Option Fault
apply w t =
    elim (find_first (λ r. not (state_eq (tree_snapshot w (λ p. false) t.caller r) (t.baseline r)))
      t.changed_paths) [
        | some r ↦ (t, some (workspace_changed r))
        | none ↦
            let (g, fault) =
              apply_paths w t.worktree t.changed_paths
                (record { tree = t.caller; saved = t.backups }) in
            elim fault [
              | none ↦ (record t { caller = g.tree; backups = g.saved; applied = true }, none)
              | some f ↦
                  let (u, again) = rollback w (record t { caller = g.tree; backups = g.saved }) in
                  (u, elim again [ some e ↦ some e | none ↦ some f ])
            ]
      ]
