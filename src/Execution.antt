-- ===== src/Execution.antt =====
-- src/server.ts, `executeTradeIntent`: the one path on which a trade is decided, sent and recorded.
-- `Context` is what it reads, `Decision` its gates and the risk review, `Run` the rest.
pub mod Context
pub mod Decision
pub mod Run
