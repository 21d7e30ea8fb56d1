-- ===== src/Risk.antt =====
-- The risk side of src/server: the breaker and its latch, the limits read at boot, and the one
-- engine that reviews every trade.
pub mod Portfolio
pub mod Gates
pub mod Fields
pub mod Engine
pub mod Numbers
pub mod Passes
pub mod Readings
pub mod Approval
pub mod Sells
