-- ===== src/Lib.antt =====
-- the-pass: a research pipeline that takes a trading strategy from an idea to a virtual paper
-- review, with evidence. Four parts that the others lean on are modelled here, the receipt ledger,
-- the promotion gates, the workflow and its supervisor, and the checks on the data of a paper
-- observation.
--
-- The receipt ledger (src/the_pass/ledger.py) is a file of JSON entries, each with the hash of the
-- one before it. A run entry fingerprints a strategy package, a gate entry records a decision about
-- a recorded run, and a registration entry counts the attempts of a robustness test.
--   Json: JSON documents, the dictionary calls on them and their laws.
--   Ledger/Host: what the ledger calls on, as a record of functions: files and paths, SHA-256,
--   canonical JSON, the validators and the gate evaluator. Paths are texts.
--   Ledger/Issues: the findings and the errors, one constructor for each message.
--   Ledger/Entries: `read_ledger_entries`, `hash_entry`, `verify_ledger_entries`.
--   Ledger/Artifacts: `verify_ledger_artifacts`.
--   Ledger/Package and Ledger/RunEntry: `artifact_summary`, `collect_artifact_summaries`,
--   `deterministic_package_id`, `build_run_entry`, `run_lineage_issue`, with `find_artifact` of
--   src/the_pass/validators/common.py and the constants of src/the_pass/validators/registry.py.
--   Ledger/Semantics: `verify_ledger_semantics`, `build_gate_ledger_entry`, `verify_ledger_file`.
--   Ledger/Append: `append_ledger_entry`, `append_gate_decision`,
--   `append_robustness_registration`, `has_passed_gate`. A call is a function from the ledger file,
--   as the host reads it, to the entry and whether it is appended; the file lock makes each call one
--   step. `append_locked_entry` is the file that it leaves, where a last line without a newline is
--   joined, and `entries_after` what is read from it.
--   Ledger/Head, Ledger/Chain, Ledger/Tamper, Ledger/Growth, Ledger/Shape, Ledger/Transactions,
--   Ledger/Registered, Ledger/Replay, Ledger/Judged, Ledger/Shown, Ledger/Reproduced and Ledger/Gates: the
--   specifications and the proofs.
--   Ledger/Sample and Ledger/Examples: a host with one package and its ledger, and tests on them.
--
-- The gates (src/the_pass/gates.py) decide from the artifacts of a package whether it is promoted,
-- and read the ledger for the gates before; src/the_pass/attestation.py checks the reviewer's
-- signature. The ledger evaluates each gate again when it replays or appends a decision.
--   Gates/GateWorld: what the gates call on beside the ledger's host, as a record of functions:
--   base64, Ed25519, times, the issues of an artifact, the policy and the trusted registries.
--   Gates/Attestation: `verify_reviewer_attestation`, `review_task_path`. Gates/Registry:
--   `verify_trusted_reviewer_registry`.
--   Gates/Evidence: `workflow_artifact`, `reviewer_identity_blockers`,
--   `gate_attestation_artifact`, with `normalize_identity` of src/the_pass/validators/common.py.
--   Gates/Audit: `gate_audit_artifact`. Gates/Judgement, Gates/PaperGate and Gates/RiskGate: the
--   branches of `evaluate_gate`, and `prior_gate_passes`. Gates/Evaluate: `policy_document` and
--   `evaluate_gate`. A `gates` entry of the policy that is no dictionary defines no gate.
--   Gates/Composed: the evaluator as the ledger calls it. A replay passes its trusted entries, so
--   the mutual calls of the two files are two levels deep.
--   Gates/Passing, Gates/Decisions, Gates/Requirements, Gates/Reviewed, Gates/Signed,
--   Gates/Attested, Gates/Trusted, Gates/Safety, Gates/Order, Gates/Fingerprinted,
--   Gates/Audited, Gates/Observed and Gates/Sequence: the specifications and the proofs.
--   Gates/Canonical, Gates/Documents, Gates/Sample and Gates/Examples: a package that passes three
--   gates, and tests on it.
--
-- The workflow (src/the_pass/orchestration.py) is a state machine over the stages of a policy
-- document. It reads the ledger to decide whether a stage may be entered and whether it is done.
--   Workflow/Errors: `WorkflowError` and its messages.
--   Workflow/Policy and Workflow/Reach: `validate_pipeline_policy`. Its worklist runs on fuel, the
--   number of the stages and two, which Workflow/Fuel and Workflow/Reached show to be enough.
--   Workflow/State: the state, and `validate_workflow_state`. The fields have their types by the
--   record, which is what the field-set and `isinstance` checks of the source establish; times are
--   what `parse_timestamp` gives.
--   Workflow/Evidence: `verify_workflow_evidence`, `workflow_target_passes`.
--   Workflow/Remediation: `_confirmed_finding_artifact`, `verify_target_remediation_entry`,
--   `verify_remediation_progress`.
--   Workflow/Start: `new_workflow_state`. Workflow/Checks and Workflow/Advance:
--   `advance_workflow_state`, phase by phase in the order of the source: checks, budgets,
--   remediation, reviewer, end.
--   Workflow/PolicyLaws, Workflow/Valid, Workflow/Progress, Workflow/Legal, Workflow/Bounded,
--   Workflow/Gated and Workflow/Started: the specifications and the proofs.
--   Workflow/Sample and Workflow/Examples: a policy document and a run from `preflight` to
--   `complete`, and tests on them.
--
-- The supervisor (src/the_pass/workflow_supervisor.py) drives the workflow by an external program,
-- which proposes the next state, and copies its changes into the caller's workspace.
--   Supervisor/Files: a workspace as `_tree_snapshot` sees it, a function from paths to files and
--   links. A directory is known to be there, but is no part of a snapshot, and those that `mkdir`
--   makes on the way to a file are not recorded.
--   Supervisor/Transaction: `_IsolatedWorkflowTransaction.apply`, `rollback`, `commit` and
--   `cleanup`. A write to the workspace may fail, in `apply` and in a rollback, which then stops.
--   Supervisor/Scope: `prepare`, without the fingerprint of the patch. Supervisor/Remap:
--   `_remap_rooted_paths`. Supervisor/Transition: `validate_supervised_transition`.
--   Supervisor/Loop: the cycles of `_supervise_workflow_locked`. The driver is a function from the
--   cycle and the state to what the process leaves, and the number of cycles is the source's own
--   limit.
--   Supervisor/Restores, Supervisor/Rollback, Supervisor/Atomic, Supervisor/Scoped,
--   Supervisor/Ends, Supervisor/Supervised and Supervisor/Kept: the specifications and the proofs;
--   Supervisor/Sample and Supervisor/Examples: a workspace and a run of two cycles.
--
-- The paper observation (src/the_pass/paper/runtime.py) freezes a run on bad market data.
--   Paper/Observation: `validate_observation`, and `CanonicalEvent.sort_key` of
--   src/the_pass/data/contracts.py. Nanoseconds are natural numbers, as the event's own check has
--   them, so a difference against a limit is a sum on the other side.
--   Paper/Sorting: `sorted`, as an insertion sort.
--   Paper/Streams and Paper/Clean: the specification and the proofs; Paper/Examples: three rows.
--
-- Prelude has the Boolean tests, the list functions and the results of code that raises. An
-- exception is a value of `Result`; what another module raises is not told apart further.
-- The text of a message is left out where its constructor says the same.
--
-- Not modelled: the file lock and the writing of bytes, the reading of YAML, the ledger's printed
-- summary, the state file, `create_superseding_package`, the creation of keys and attestations,
-- `write_gate_decision`, the supervisor's worktree, reports, routes, processes and deterministic
-- stages, and the other packages of src/the_pass (engine, validators, risk, data, adapters,
-- automation, command line, the processes and the observer of paper).
pub mod Prelude
pub mod Json
pub mod Ledger
pub mod Gates
pub mod Workflow
pub mod Paper
pub mod Supervisor
