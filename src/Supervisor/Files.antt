-- ===== src/Supervisor/Files.antt =====
-- workflow_supervisor.py: a workspace as its snapshots see it.
use the_pass.Prelude.{
  ℕ, String, Bool, true, false, ◌&&◌, ◌||◌, ◌==◌, Option, none, some, List, [], ◌∷◌, any_of,
  mem_text, str_eq, if◌then◌else◌,
}

-- The bytes and the permission bits of a regular file.
pub record File : Type 0 where
  pub bytes : String
  pub mode : ℕ

-- A directory is no part of a snapshot. The target of a symbolic link is a text.
pub data Node : Type 0 where
  regular : File → Node
  symlink : String → Node
  folder : Node

-- What stands at a path relative to the root.
abbrev pub Tree : Type 0
Tree = String → Option Node

-- `hashlib.sha256`, the parts of a relative path, and whether the writing or the removal of a file
-- of the caller raises an `OSError`, before it changes anything: in `apply`, and in `rollback`.
pub record System : Type 0 where
  pub sha256 : String → String
  pub parts : String → List String
  pub fails : String → Bool
  pub restore_fails : String → Bool

pub data FileState : Type 0 where
  file : String → ℕ → FileState
  link : String → FileState

abbrev pub workspace_copy_excluded_names : List String
workspace_copy_excluded_names =
    ".git" ∷ ".mypy_cache" ∷ ".pytest_cache" ∷ ".ruff_cache" ∷ ".venv" ∷ "__pycache__" ∷ "build"
    ∷ "dist" ∷ "venv" ∷ []

-- What `_tree_snapshot` of a workspace has at a path.
abbrev pub state_of : System → Option Node → Option FileState
state_of w none = none
state_of w (some (regular f)) = some (file (w.sha256 f.bytes) f.mode)
state_of w (some folder) = none
state_of w (some (symlink t)) = some (link (w.sha256 t))

unfoldable pub tree_snapshot : System → (String → Bool) → Tree → String → Option FileState
tree_snapshot w excluded tree path =
    if any_of (λ part. mem_text part workspace_copy_excluded_names) (w.parts path) || excluded path
    then none
    else state_of w (tree path)

-- `before.get(path) == after.get(path)`
abbrev pub state_eq : Option FileState → Option FileState → Bool
state_eq none none = true
state_eq (some (file a m)) (some (file b n)) = str_eq a b && (m == n)
state_eq (some (link a)) (some (link b)) = str_eq a b
state_eq _ _ = false

-- What is there but for directories, as in a snapshot.
abbrev pub seen : Option Node → Option Node
seen none = none
seen (some folder) = none
seen (some n) = some n

abbrev pub is_folder : Option Node → Bool
is_folder (some folder) = true
is_folder _ = false

-- The workspace with another node, or none, at a path.
abbrev pub put : String → Option Node → Tree → Tree
put path node tree = λ p. if str_eq p path then node else tree p
