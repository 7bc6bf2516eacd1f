-- ===== src/Book.antt =====
-- The order book of one symbol: biz/service/orderbook.go.
pub mod Levels
pub mod Types
pub mod Matching
pub mod Orders
pub mod Stock
pub mod Round
pub mod Trades
pub mod Matched
pub mod Loop
pub mod Enqueue
pub mod Queue
pub mod Settled
pub mod Cancel
pub mod Priority
pub mod Wellformed
