-- ===== src/Ledger.antt =====
-- The receipt ledger of src/the_pass/ledger.py: an append-only, hash-chained list of JSON entries.
pub mod Host
pub mod Issues
pub mod Entries
pub mod Chain
pub mod Head
pub mod Tamper
pub mod Artifacts
pub mod Package
pub mod RunEntry
pub mod Semantics
pub mod Append
pub mod Growth
pub mod Shape
pub mod Transactions
pub mod Registered
pub mod Replay
pub mod Judged
pub mod Shown
pub mod Reproduced
pub mod Gates
pub mod Sample
pub mod Examples
