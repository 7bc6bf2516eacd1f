-- ===== src/Engine/Types.antt =====
-- The state of `MatchEngine` of biz/service/match_engine.go, and what its calls read of the outside.
use cex_hertz_backend.Base.{ℕ, ℤ, String, Bool, List, Dict}
use cex_hertz_backend.Events.Types.{PriceInNano, QuantityInNano, TradeExecutedEvent}
use cex_hertz_backend.EventLog.Envelope.{Json}
use cex_hertz_backend.EventLog.Store.{EventStore}
use cex_hertz_backend.Sequencer.{Sequencer}
use cex_hertz_backend.Book.Levels.{SkipList}
use cex_hertz_backend.Book.Types.{OrderBookEntry, Float64, Comparable, OrderBook}
use cex_hertz_backend.Pipeline.Rows.{CheckpointDb}
use cex_hertz_backend.Pipeline.Dispatch.{EventPipeline, Turn}
use cex_hertz_backend.Pipeline.Process.{PipelineError}

pub record SubmitOrderMsg : Type 0 where
  pub order_id : String
  pub symbol : String
  pub side : String
  pub price : String
  pub quantity : String
  pub user_id : String

-- A message to the subscribers of a symbol or to a user, less its encoding.
pub data Message : Type 0 where
  trade_message : TradeExecutedEvent → Message
  filled_message : String → ℤ → Message
  pending_message : String → QuantityInNano → ℤ → Message

pub data Notice : Type 0 where
  broadcast unicast : String → Message → Notice

pub data SubmitError : Type 0 where
  missing_fields : SubmitError
  not_processed : PipelineError → SubmitError

-- The readings of the clock, the reading of a number (`fmt.Sscanf` and float64), the text of a new
-- order's time, and whether the engine shuts down.
pub record Outside (W : Type 0) : Type 0 where
  pub turn : Turn W
  pub now : ℤ
  pub trade_times : ℕ → ℤ
  pub nanos : String
  pub parse_price : String → PriceInNano
  pub parse_quantity : String → QuantityInNano
  pub shutting_down : Bool

module _ {J : Json} (S : EventStore J) (D : CheckpointDb) (W : Type 0) {F : Float64}
    (L : SkipList (List OrderBookEntry) (Comparable F)) where
  -- The sequencer is shared: a book draws from it while it matches, so that the sequencer that a
  -- book holds is set before a match and read behind it. `notices` is what was sent, the last first.
  pub record MatchEngine : Type 0 where
    pub order_queues : Dict (List SubmitOrderMsg)
    pub order_books : Dict (OrderBook F L)
    pub event_pipeline : EventPipeline S D W
    pub sequencer : Sequencer
    pub world : W
    pub has_broadcaster : Bool
    pub has_unicaster : Bool
    pub notices : List Notice
