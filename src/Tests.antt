-- ===== src/Tests.antt =====
-- The theorems at concrete inputs, and runs of the model.
mod Trading
mod Risk
mod Breaker
mod Poller
mod Sizing
mod Exits
mod Scheduler
mod Reconciliation
mod Startup
mod Regime
mod Brackets
mod Orders
mod Execution
mod Monitor
mod Store
mod Sync
mod Sources
mod Signals
mod Operations
