-- ===== src/Workflow.antt =====
-- The workflow of src/the_pass/orchestration.py.
pub mod Errors
pub mod Reach
pub mod Policy
pub mod Reached
pub mod Fuel
pub mod PolicyLaws
pub mod State
pub mod Evidence
pub mod Remediation
pub mod Start
pub mod Checks
pub mod Advance
pub mod Valid
pub mod Progress
pub mod Legal
pub mod Bounded
pub mod Started
pub mod Sample
pub mod Examples
pub mod Gated
