-- ===== src/Ledger.antt =====
-- The credit ledger (legacy/worker/src/daemon/credit_ledger.py), part by part.
pub mod Types
pub mod Merkle
pub mod Chain
pub mod Staking
pub mod Vesting
mod Examples
pub mod Queries
pub mod Writes
