-- ===== src/Supervisor/Scope.antt =====
-- workflow_supervisor.py: `_IsolatedWorkflowTransaction.prepare`, on the paths that an agent changed.
use Prim.Native.Nat.{Ordering}
use Prim.Native.String.{◌++◌ as text_append, compare as text_compare}
use the_pass.Prelude.{
  String, Bool, true, false, not, ◌&&◌, ◌||◌, Option, none, some, List, [], ◌∷◌, ◌++◌, mem_text,
  select, dedup, str_eq, lookup, keys, if◌then◌else◌,
}
use the_pass.Prelude.Result.{Result, ok, ◌>>=◌, ◌>>◌, raise_if}
use the_pass.Supervisor.Files.{FileState, file, link, state_eq}
use the_pass.Supervisor.Transition.{starts_with}
use the_pass.Supervisor.Remap.{Paths}
use the_pass.Supervisor.Loop.{review_gate_transitions}

-- The `WorkflowSupervisorError`s of `prepare`, each with its path.
pub data ScopeError : Type 0 where
  changed_protected : String → ScopeError
  changed_parent_evidence : String → ScopeError
  changed_package_artifact : String → ScopeError
  outside_scope : String → ScopeError
  unsupported_object : String → ScopeError

-- What `prepare` reads: the stage before, the candidate's package path and evidence paths, the
-- protected paths and `Path.name`.
pub record Candidate : Type 0 where
  pub stage : String
  pub package_path : Option String
  pub evidence_paths : List String
  pub worktree : String
  pub protected_paths : List String
  pub name : String → String

-- `sorted`
insert_text : String → List String → List String
insert_text s [] = s ∷ []
insert_text s (t ∷ r) = elim (text_compare s t) [
  | Ordering.gt ↦ t ∷ insert_text s r
  | _ ↦ s ∷ t ∷ r
]

sort_texts : List String → List String
sort_texts [] = []
sort_texts (s ∷ r) = insert_text s (sort_texts r)

-- The paths at which two snapshots differ.
unfoldable pub changed_between : List (String × FileState) → List (String × FileState) → List String
unfolding insert_text sort_texts
changed_between baseline observed = sort_texts (
    select (λ p. not (state_eq (lookup p baseline) (lookup p observed)))
      (dedup [] (keys baseline ++ keys observed)))

-- The declared evidence below the worktree.
evidence_scope : Paths → String → List String → List String
evidence_scope x worktree [] = []
evidence_scope x worktree (v ∷ vs) = elim (x.relative_to worktree v) [
  | none ↦ evidence_scope x worktree vs
  | some r ↦ r ∷ evidence_scope x worktree vs
]

unfoldable pub is_evidence : Paths → Candidate → String → Bool
unfolding evidence_scope
is_evidence x c relative = mem_text relative (evidence_scope x c.worktree c.evidence_paths)

unfoldable pub is_in_package : Paths → Candidate → String → Bool
is_in_package x c relative = elim (c.package_path) [
  | none ↦ false
  | some value ↦ elim (x.relative_to c.worktree value) [
    | none ↦ false
    | some p ↦ str_eq relative p || starts_with (text_append p "/") relative
  ]
]

abbrev pub is_parent_owned : String → Bool
is_parent_owned name = starts_with "gate_decision." name || starts_with "reviewer_attestation." name

-- A review stage writes its own report alone into the package.
unfoldable pub may_review : String → String → Bool
may_review stage name = elim (lookup stage review_gate_transitions) [
  | none ↦ true
  | some gate ↦
      if str_eq stage "review_research"
      then starts_with "findings." name
      else starts_with (text_append "audit_report." (text_append gate ".")) name
]

abbrev pub is_regular_or_gone : Option FileState → Bool
is_regular_or_gone none = true
is_regular_or_gone (some (file s m)) = true
is_regular_or_gone (some (link s)) = false

-- The checks of one changed path.
unfoldable pub check_path :
    Paths → Candidate → List (String × FileState) → String → Result ScopeError (Unit {0})
check_path x c observed relative = do
  raise_if (mem_text relative c.protected_paths) (changed_protected relative)
  raise_if (is_parent_owned (c.name relative)) (changed_parent_evidence relative)
  raise_if (is_in_package x c relative && not (may_review c.stage (c.name relative)))
      (changed_package_artifact relative)
  raise_if (not (is_evidence x c relative) && not (is_in_package x c relative))
      (outside_scope relative)
  raise_if (not (is_regular_or_gone (lookup relative observed))) (unsupported_object relative)

unfoldable pub check_paths :
    Paths → Candidate → List (String × FileState) → List String → Result ScopeError (Unit {0})
check_paths x c observed [] = ok tt
check_paths x c observed (r ∷ rs) = check_path x c observed r >> check_paths x c observed rs

-- The changed paths of the transaction.
unfoldable pub prepare :
    Paths
    → Candidate
    → List (String × FileState)
    → List (String × FileState)
    → Result ScopeError (List String)
prepare x c baseline observed =
    let changed = changed_between baseline observed in
    check_paths x c observed changed >>= λ _. ok changed
