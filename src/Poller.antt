-- ===== src/Poller.antt =====
-- src/server/orderStatusPoller.ts: the broker's view of pending orders, brought into the ledger.
pub mod Targets
pub mod Fetch
pub mod Apply
pub mod Legs
pub mod Cycle
pub mod Selection
pub mod Fills
