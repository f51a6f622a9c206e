-- ===== src/Supervisor/Loop.antt =====
-- workflow_supervisor.py: the cycles of `_supervise_workflow_locked`, in the direct workspace mode.
use Prim.Native.String.{◌++◌ as text_append}
use the_pass.Prelude.{
  ℕ, zero, suc, ◌+◌, ◌-◌, String, Bool, not, ◌&&◌, ◌==◌, Option, none, some, List, [], ◌∷◌,
  mem_text, str_eq, ltb, lookup, if◌then◌else◌,
}
use the_pass.Prelude.Result.{Result, ok, raise, ◌>>=◌, ◌>>◌, raise_if}
use the_pass.Workflow.Errors.{WorkflowError}
use the_pass.Workflow.State.{Policy, World, State, validate_workflow_state}
use the_pass.Workflow.Evidence.{verify_workflow_evidence}
use the_pass.Supervisor.Transition.{SupervisorError, validate_supervised_transition}

-- What a driver leaves: its process, and the state that it proposes. `undisturbed` says that the
-- canonical state file is as it was.
pub record Driven : Type 0 where
  pub executed : Bool
  pub timed_out : Bool
  pub output_exceeded : Bool
  pub exit_code : ℕ
  pub proposal : Option State
  pub undisturbed : Bool

-- The driver by cycle and state, whether a stage is routed to an agent, and `_fingerprint`.
pub record Drivers : Type 0 where
  pub drive : ℕ → State → Driven
  pub is_agent : State → Bool
  pub fingerprint : State → String

abbrev pub stop_statuses : List String
stop_statuses = "complete" ∷ "waiting" ∷ "blocked" ∷ "killed" ∷ []

abbrev pub review_gate_transitions : List (String × String)
review_gate_transitions =
    ("review_research", "research_gate")
    ∷ ("review_paper", "paper_gate")
    ∷ ("review_risk", "risk_review")
    ∷ []

-- The messages of `fail`.
pub data Failure : Type 0 where
  not_executed : Failure
  driver_timed_out : Failure
  driver_output_exceeded : Failure
  invalid_state : Failure
  no_progress : Failure
  rejected : SupervisorError → Failure
  canonical_changed : Failure
  driver_failed : Failure

pub data Outcome : Type 0 where
  failed : Failure → State → Outcome
  checkpoint : State → Outcome
  cycles_exhausted : State → Outcome

abbrev pub of_workflow : {A : Type 0} → Result WorkflowError A → Failure → Result Failure A
of_workflow (ok a) f = ok a
of_workflow (raise e) f = raise f

-- `read_workflow_state(active_proposal)`: the state's own checks, then its evidence.
unfoldable pub read_proposal : World → Policy → Driven → Result Failure State
read_proposal w p d = elim (d.proposal) [
  | none ↦ raise invalid_state
  | some s ↦
      of_workflow (validate_workflow_state w p s >> verify_workflow_evidence w s) invalid_state
      >>= λ _. ok s
]

abbrev pub of_supervisor : Result SupervisorError (Unit {0}) → Result Failure (Unit {0})
of_supervisor (ok u) = ok u
of_supervisor (raise e) = raise (rejected e)

-- An agent's move to a gate waits for the signed attestation.
unfoldable pub hold_for_review : Drivers → State → State → State
hold_for_review x before candidate = elim (lookup before.stage review_gate_transitions) [
  | none ↦ candidate
  | some gate ↦
      if x.is_agent before && str_eq candidate.stage gate
      then record candidate {
        stage = before.stage;
        status = "waiting";
        blockers =
            text_append gate " requires an independently signed Ed25519 reviewer attestation" ∷ [];
        next_action =
            text_append "run the-pass gate attest for "
              (text_append gate ", then resume workflow execute");
      }
      else candidate
]

-- One cycle, up to the state that is written.
unfoldable pub run_cycle : World → Policy → Drivers → State → Driven → Result Failure State
run_cycle w p x before d = do
  raise_if (not d.executed) not_executed
  raise_if d.timed_out driver_timed_out
  raise_if d.output_exceeded driver_output_exceeded
  proposed ← read_proposal w p d
  let candidate = hold_for_review x before proposed
  raise_if (str_eq (x.fingerprint candidate) (x.fingerprint before)) no_progress
  of_supervisor (validate_supervised_transition w p before candidate)
  raise_if (not d.undisturbed) canonical_changed
  ok candidate

-- `outcome["exit_code"] != 0 and state["status"] not in {…}`
abbrev pub is_driver_failure : Driven → State → Bool
is_driver_failure d s =
    not (d.exit_code == 0) && not (mem_text s.status ("waiting" ∷ "blocked" ∷ "killed" ∷ []))

-- The loop, with `n` cycles left, at cycle `i`.
unfoldable pub supervise_from : World → Policy → Drivers → ℕ → ℕ → State → Outcome
supervise_from w p x zero i s = cycles_exhausted s
supervise_from w p x (suc n) i s =
    let d = x.drive i s in
    elim (run_cycle w p x s d) [
      | raise f ↦ failed f s
      | ok t ↦
          let rest = supervise_from w p x n (i + 1) t in
          if is_driver_failure d t
          then failed driver_failed t
          else if mem_text t.status stop_statuses
          then checkpoint t
          else rest
    ]

-- `remaining`, and the limit by the caller's `max_cycles`.
abbrev pub cycle_limit : Policy → State → Option ℕ → ℕ
cycle_limit p s none = (p.max_transitions + 1) - s.transitions_used
cycle_limit p s (some m) =
    let remaining = (p.max_transitions + 1) - s.transitions_used in
    if ltb m remaining then m else remaining

-- The state as it was read, or no outcome where the cycle budget is exhausted.
unfoldable pub supervise_workflow : World → Policy → Drivers → Option ℕ → State → Option Outcome
supervise_workflow w p x max_cycles s =
    let n = cycle_limit p s max_cycles in
    if n == 0
    then none
    else if mem_text s.status stop_statuses
    then some (checkpoint s)
    else some (supervise_from w p x n 1 s)
