-- ===== src/Sync.antt =====
-- `runSyncCycle` of src/server.ts and what stands around it: the reads of the broker, the breaker's
-- reset, the reconciliation that can trip it, and the trades that analyses lead to.
pub mod Reads
pub mod Reset
pub mod Drift
pub mod Ledger
pub mod Automation
