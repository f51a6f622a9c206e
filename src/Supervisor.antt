-- ===== src/Supervisor.antt =====
-- The workflow supervisor of src/the_pass/workflow_supervisor.py.
pub mod Files
pub mod Transaction
pub mod Restores
pub mod Rollback
pub mod Atomic
pub mod Transition
pub mod Loop
pub mod Remap
pub mod Ends
pub mod Kept
pub mod Scope
pub mod Scoped
pub mod Supervised
pub mod Sample
pub mod Examples
