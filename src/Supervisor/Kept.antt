-- ===== src/Supervisor/Kept.antt =====
-- What a supervised run of workflow_supervisor.py keeps, whatever its drivers do.
use the_pass.Prelude.{ℕ, ◌+◌, ◌≤◌, ◌≡◌, ◌⊎◌}
use the_pass.Prelude.Result.{Result, ok}
use the_pass.Workflow.State.{Policy, World, State}
use the_pass.Workflow.Evidence.{verify_workflow_evidence}
use the_pass.Workflow.Progress.{identity_of}
use the_pass.Supervisor.Supervised.{IsSupervised}
use the_pass.Supervisor.Loop.{Outcome, failed, checkpoint, cycles_exhausted}

-- The state that a run leaves.
abbrev pub state_of : Outcome → State
state_of (failed f s) = s
state_of (checkpoint s) = s
state_of (cycles_exhausted s) = s

-- From `s` a chain of accepted transitions leads to `t`.
pub data Supervises (w : World) (p : Policy) : ℕ → State → State → Type 0 where
  stays : {s : State} → Supervises w p 0 s s
  goes :
      {n : ℕ} {s u t : State}
      → IsSupervised w p s u
      → Supervises w p n u t
      → Supervises w p (n + 1) s t

-- A run of at most `n` cycles: it is still the same run, it has not got a transition or a lap back,
-- has spent at most one of each for a cycle, and the evidence of a state it has written verifies.
pub record IsKept (w : World) (p : Policy) (n : ℕ) (s t : State) : Type 0 where
  pub cycles : ℕ
  pub within : cycles ≤ n
  pub chain : Supervises w p cycles s t
  pub identity : identity_of t ≡ identity_of s
  pub transitions :
      (s.transitions_used ≤ t.transitions_used) × (t.transitions_used ≤ s.transitions_used + n)
  pub laps :
      (s.remediation_laps ≤ t.remediation_laps) × (t.remediation_laps ≤ s.remediation_laps + n)
  pub evidenced : (t ≡ s) ⊎ (verify_workflow_evidence w t ≡ ok tt)
