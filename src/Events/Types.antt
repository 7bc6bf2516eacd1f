-- ===== src/Events/Types.antt =====
-- The events of biz/model/event.go. Prices and quantities are int64, in units of 10 ^ -8.
use cex_hertz_backend.Base.{ℕ, ℤ, String, ltb_ℤ, if◌then◌else◌}

abbrev pub PriceInNano : Type 0
PriceInNano = ℤ

abbrev pub QuantityInNano : Type 0
QuantityInNano = ℤ

-- `Min`, of two quantities.
unfoldable pub min_quantity : QuantityInNano → QuantityInNano → QuantityInNano
min_quantity a b = if ltb_ℤ a b then a else b

pub record OrderSubmittedEvent : Type 0 where
  pub seq : ℕ
  pub timestamp : ℤ
  pub order_id : String
  pub user_id : String
  pub symbol_str : String
  pub side : String
  pub price : PriceInNano
  pub quantity : QuantityInNano
  pub status : String

pub record TradeExecutedEvent : Type 0 where
  pub seq : ℕ
  pub timestamp : ℤ
  pub trade_id : String
  pub symbol_str : String
  pub taker_order_id : String
  pub maker_order_id : String
  pub taker_user : String
  pub maker_user : String
  pub price : PriceInNano
  pub quantity : QuantityInNano
  pub taker_side : String

pub record OrderCancelledEvent : Type 0 where
  pub seq : ℕ
  pub timestamp : ℤ
  pub order_id : String
  pub symbol_str : String
  pub reason : String

-- The implementations of the interface `MatchingEngineEvent`.
pub data MatchingEngineEvent : Type 0 where
  submitted : OrderSubmittedEvent → MatchingEngineEvent
  executed : TradeExecutedEvent → MatchingEngineEvent
  cancelled : OrderCancelledEvent → MatchingEngineEvent

unfoldable pub event_type : MatchingEngineEvent → String
event_type (submitted e) = "order_submitted"
event_type (executed e) = "trade_executed"
event_type (cancelled e) = "order_cancelled"

unfoldable pub event_seq : MatchingEngineEvent → ℕ
event_seq (submitted e) = e.seq
event_seq (executed e) = e.seq
event_seq (cancelled e) = e.seq

unfoldable pub event_timestamp : MatchingEngineEvent → ℤ
event_timestamp (submitted e) = e.timestamp
event_timestamp (executed e) = e.timestamp
event_timestamp (cancelled e) = e.timestamp

unfoldable pub symbol : MatchingEngineEvent → String
symbol (submitted e) = e.symbol_str
symbol (executed e) = e.symbol_str
symbol (cancelled e) = e.symbol_str
