-- ===== src/Trading.antt =====
-- src/server/tradingSafety.ts: the trade records, the symbol and broker configuration checks, and
-- the pipeline that is the one way from a trade request to the broker.
pub mod State
pub mod Types
pub mod Symbol
pub mod Config
pub mod OrderId
pub mod Pipeline
pub mod Trail
pub mod Gate
