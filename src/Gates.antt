-- ===== src/Gates.antt =====
-- The promotion gates of src/the_pass/gates.py and the reviewers' signatures of attestation.py.
pub mod GateWorld
pub mod Attestation
pub mod Registry
pub mod Evidence
pub mod Audit
pub mod Judgement
pub mod PaperGate
pub mod RiskGate
pub mod Evaluate
pub mod Passing
pub mod Decisions
pub mod Requirements
pub mod Reviewed
pub mod Signed
pub mod Attested
pub mod Trusted
pub mod Safety
pub mod Order
pub mod Fingerprinted
pub mod Audited
pub mod Observed
pub mod Composed
pub mod Sequence
pub mod Canonical
pub mod Documents
pub mod Sample
pub mod Examples
