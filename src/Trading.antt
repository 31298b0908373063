-- ===== src/Trading.antt =====
-- include/trading: the strategy, the order consumers, and the exchange gateway.
pub mod Int32
pub mod Format
pub mod Ledger
pub mod Strategy
pub mod Producer
pub mod Consumer
pub mod Gateway
mod Tests
