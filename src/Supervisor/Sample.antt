-- ===== src/Supervisor/Sample.antt =====
-- A workspace, its transaction and drivers, to try workflow_supervisor.py on.
use Prim.Native.Char.{code}
use the_pass.Prelude.{
  Option, Bool, String, true, false, not, ◌&&◌, none, some, List, [], ◌∷◌, ◌==◌, str_eq,
  if◌then◌else◌,
}
use the_pass.Json.{Fields, text, dict}
use the_pass.Supervisor.Remap.{Paths}
use the_pass.Workflow.State.{State}
use the_pass.Workflow.Sample.{at_gate, completed}
use the_pass.Supervisor.Files.{FileState, file, regular, Tree, System, put, tree_snapshot}
use the_pass.Supervisor.Scope.{Candidate}
use the_pass.Supervisor.Transaction.{Transaction}
use the_pass.Supervisor.Loop.{Driven, Drivers}

-- Writing to a locked file fails.
abbrev pub system : System
system = record {
  sha256 = λ s. s;
  parts = λ p. p ∷ [];
  fails = λ p. str_eq p "locked.json";
  restore_fails = λ p. false;
}

abbrev caller : Tree
caller = λ p.
    if str_eq p "findings.json"
    then some (regular (record { bytes = "old"; mode = 420 }))
    else if str_eq p "draft.json"
    then some (regular (record { bytes = "draft"; mode = 420 }))
    else none

-- The agent has written its findings and removed the draft.
abbrev worktree : Tree
worktree =
    put "draft.json" none
      (put "findings.json" (some (regular (record { bytes = "new"; mode = 420 }))) caller)

abbrev pub transaction : List String → Transaction
transaction changed = record {
  caller = caller;
  worktree = worktree;
  baseline = tree_snapshot system (λ p. false) caller;
  changed_paths = changed;
  backups = [];
  applied = false;
}

abbrev driven : State → Driven
driven s = record {
  executed = true;
  timed_out = false;
  output_exceeded = false;
  exit_code = 0;
  proposal = some s;
  undisturbed = true;
}

-- To the gate in the first cycle, and then to the end.
abbrev pub drivers : Drivers
drivers = record {
  drive = λ i s. if i == 1 then driven at_gate else driven completed;
  is_agent = λ s. false;
  fingerprint = λ s. s.stage;
}

-- The rest of a text behind another one.
behind : String → String → Option String
behind String.[] s = some s
behind (String.◌∷◌ c p) String.[] = none
behind (String.◌∷◌ c p) (String.◌∷◌ d s) = if code c == code d then behind p s else none

onto : String → String → String
onto String.[] s = s
onto (String.◌∷◌ c p) s = String.◌∷◌ c (onto p s)

is_rooted : String → Bool
is_rooted String.[] = false
is_rooted (String.◌∷◌ c s) = code c == 47

unfoldable pub paths : Paths
unfolding behind onto is_rooted
paths = record {
  is_absolute = is_rooted;
  is_plain = λ root s. not (is_rooted s) && not (str_eq s "");
  relative_to = λ root s. behind (onto root "/") s;
  join = λ root s. onto root (onto "/" s);
}

abbrev pub proposal : Fields
proposal = dict (
    ("package_path", text "/home/package")
    ∷ ("ledger", text "/var/ledger")
    ∷ ("run", text "run")
    ∷ [])

-- The snapshots of the worktree before and after the agent, and what the agent declares.
abbrev pub baseline : List (String × FileState)
baseline = ("findings.json", file "old" 420) ∷ ("draft.json", file "draft" 420) ∷ []

abbrev pub observed : List (String × FileState)
observed = ("findings.json", file "new" 420) ∷ []

abbrev pub candidate : Candidate
candidate = record {
  stage = "review_research";
  package_path = none;
  evidence_paths = "/tmp/w/findings.json" ∷ "/tmp/w/draft.json" ∷ [];
  worktree = "/tmp/w";
  protected_paths = "ledger.jsonl" ∷ [];
  name = λ p. p;
}
