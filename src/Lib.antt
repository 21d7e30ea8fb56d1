-- ===== src/Lib.antt =====
-- Quantpaca, an automated trading system for Alpaca (server.ts and src/server/*.ts), modelled part
-- by part. A part below names the file of the repository first and the module that models it next.
--
-- Numbers. A JavaScript number is an IEEE 754 double (Js/Number, Js/Arith): every finite double is a
-- whole multiple of 2 ^ -1074, so it is kept exactly, and `+ - * /` round to nearest, ties to even.
-- The rounding counts binary digits with fuel 8000; a product has fewer than 4200 and a quotient
-- fewer than 3200, so the fuel never runs out. Strings are lists of UTF-16 units (Js/Text), `Number(s)`
-- reads them exactly (Js/Numeral), and a value of unknown type is a tree (Js/Value). A text that only
-- reports (a reason, an audit message) is a constructor that carries the values put into it, except
-- where code reads it back; a timestamp that is only compared is its number of milliseconds.
--
-- Parts.
-- src/server/numericSafety.ts: NumericSafety (parseFiniteNumber).
-- src/server/tradingSafety.ts: Trading/State, Types, Symbol, Config, OrderId, Pipeline. The broker,
--   the hash of node:crypto, the clock and random ids are parameters; a run returns the trade, its
--   audit events and the client order ids that it sent.
-- src/server/riskEngine.ts: Risk/Gates, Fields, Engine (reviewRisk and the sell preflight).
-- src/server/breakerEngine.ts and src/server/breakerLatch.ts: Breaker/Engine, Breaker/Latch. A
--   latch state that is saved and read back goes through Js/Value.
-- src/server/orderStatusPoller.ts: Poller/Targets, Fetch, Apply, Legs, Cycle. The answer of `fetch` and
--   the cancel call are parameters; a cycle returns what it saved and canceled, in order. It reads a
--   trade of the pipeline (Trading/Types) and its state mapping (Trading/State).
-- src/server/sizingEngine.ts: Sizing. src/server/exitEngine.ts: Exits, which gives the plan that the
--   pipeline and the risk engine demand; a date that cannot be represented throws, here `none`.
-- src/server/scheduler.ts: Scheduler. A tick is two steps, split at the `await` of the cycle, so that
--   every order of callbacks is a sequence of steps; the awaits after it are part of the second step.
-- src/server/reconciliationEngine.ts: Reconciliation, on objects in insertion order (Js/Object).
-- src/server/riskLimits.ts and src/server/cooldownConfig.ts: Limits. src/server/regimeEngine.ts: Regime.
-- src/server/startupReconciliation.ts: Startup. An attempt is the poll (Poller/Cycle) and the fetch of
--   open orders; a timer that fires is a step, and the effects are recorded in order.
-- src/server/portfolioEngine.ts: Portfolio. src/server/bracketOrders.ts: Brackets.
-- src/server/tradabilityGuard.ts: Tradability, with its cache as a state.
-- server.ts: Orders (placeAlpacaOrder, cancelAlpacaOrder) and Execution (executeTradeIntent). A read
--   of the broker or the store is a field of Execution/Context, `none` where it throws; every write
--   to the store is an effect, in order. Execution joins the breaker, the exit plan, the gates, the
--   risk review, the pipeline and the placement, as the server does. Liquidation (sellRiskPreflight,
--   cancelBracketLegsBeforeSell) is what comes before an automated sell. Sync is runSyncCycle: Drift
--   (the position reconciliation and what it saves), Ledger (the trades it reads), Automation (the trades of the accepted analyses
--   and the cap on buys); Sync/Reset is performBreakerReset, Sync/Reads the reads of the broker.
-- src/server/exitMonitor.ts: Monitor, which asks Exits about every open position.
-- src/server/whipsawGate.ts and src/server/crossSourceConfirmation.ts: Signals.
-- src/server/crashLoopGuard.ts, src/server/alertThrottle.ts and src/server/rateLimiter.ts: Guards.
-- src/server/persistence.ts: Store, the tables that the parts above write and read, as lists of rows.
-- src/server/signalEngine.ts and src/server/signalReviewStep.ts: Signals/Review and Signals/Review/Step,
--   with SHA-256, Date.parse and the clock as parameters. src/server/bearishMapping.ts: Signals/Bearish.
-- src/server/sourceRegistry.ts: Sources, with the file system and JSON.parse as parameters.
-- src/server/heartbeat.ts, with onCycleCompleted and checkWatchdog of server.ts: Heartbeat.
-- src/server/startupChecks.ts: StartupChecks. src/server/senderPolicy.ts: SenderPolicy.
-- src/server/backupEngine.ts: Backup, over a directory and an application state.
-- src/server/telegramEngine.ts: Telegram; handleTelegramCommand of server.ts: Telegram/Commands.
--
-- Not modelled: the HTTP server and its routes and the collection of signals in a cycle (the rest of
-- server.ts), the other tables of the store, e-mail, market data and the user interface. They are input and
-- output around the parts above, or parts of their own.
pub mod Base
pub mod StartupChecks
pub mod Telegram
pub mod SenderPolicy
pub mod Sources
pub mod Sync
pub mod Heartbeat
pub mod Backup
pub mod Js
pub mod NumericSafety
pub mod Trading
pub mod Risk
pub mod Breaker
pub mod Poller
pub mod Limits
pub mod Regime
pub mod Sizing
pub mod Exits
pub mod Scheduler
pub mod Reconciliation
pub mod Startup
pub mod Portfolio
pub mod Brackets
pub mod Tradability
pub mod Orders
pub mod Execution
pub mod Liquidation
pub mod Monitor
pub mod Store
pub mod Signals
pub mod Guards
mod Tests
