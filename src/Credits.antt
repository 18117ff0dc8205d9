-- ===== src/Credits.antt =====
-- The services' credits: the SQL ledger (legacy/services_python/db/_credits.py), the transfers
-- between nodes (legacy/services_python/credit_transfers.py) and the multipliers
-- (legacy/services_python/credit_multipliers.py).
pub mod Store
pub mod Transfers
pub mod Multipliers
mod Examples
