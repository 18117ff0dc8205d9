-- ===== src/Voting.antt =====
-- The voting system (legacy/worker/src/daemon/voting_system.py), part by part.
pub mod Types
pub mod Accounts
pub mod Ballots
pub mod Finalize
pub mod Delegation
pub mod Signatures
pub mod Requests
pub mod Quadratic
mod Examples
