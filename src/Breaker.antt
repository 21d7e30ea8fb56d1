-- ===== src/Breaker.antt =====
-- src/server/breakerEngine.ts and src/server/breakerLatch.ts: the portfolio drawdown breaker.
pub mod Engine
pub mod Latch
pub mod Trips
pub mod Holds
