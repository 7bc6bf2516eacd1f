-- ===== src/Snapshot/Types.antt =====
-- The snapshots and their differences, the data of biz/service/state_snapshot.go. Times are numbers.
use cex_hertz_backend.Base.{ℤ, String, Bool, Option, List, Dict}

pub record OrderSnapshot : Type 0 where
  pub order_id : String
  pub user_id : String
  pub symbol : String
  pub side : String
  pub price : ℤ
  pub quantity : ℤ
  pub filled_qty : ℤ
  pub status : String
  pub created_at : ℤ
  pub updated_at : ℤ

pub record TradeSnapshot : Type 0 where
  pub trade_id : String
  pub buyer_id : String
  pub seller_id : String
  pub symbol : String
  pub price : ℤ
  pub quantity : ℤ
  pub created_at : ℤ

pub record PositionSnapshot : Type 0 where
  pub user_id : String
  pub symbol : String
  pub quantity_held : ℤ
  pub cost_base : ℤ
  pub realized_pnl : ℤ
  pub unrealized_pnl : ℤ
  pub updated_at : ℤ

-- A book maps prices to quantities, each price once.
pub record OrderBookSnapshot : Type 0 where
  pub symbol : String
  pub last_trade_price : ℤ
  pub bid_book : List (ℤ × ℤ)
  pub ask_book : List (ℤ × ℤ)
  pub best_bid : ℤ
  pub best_ask : ℤ
  pub bid_depth : ℤ
  pub ask_depth : ℤ
  pub spread : ℤ

pub record StateSnapshot : Type 0 where
  pub timestamp : ℤ
  pub orders : Dict OrderSnapshot
  pub trades : Dict TradeSnapshot
  pub positions : Dict PositionSnapshot
  pub order_book : Option OrderBookSnapshot
  pub checksum : String
  pub event_count : ℤ
  pub order_count : ℤ
  pub trade_count : ℤ
  pub position_count : ℤ

pub record CountMismatch : Type 0 where
  pub field : String
  pub expected : ℤ
  pub actual : ℤ

-- What an order's change holds in its `interface{}`.
pub data Value : Type 0 where
  number : ℤ → Value
  text : String → Value

pub record OrderChange : Type 0 where
  pub order_id : String
  pub field : String
  pub expected : Value
  pub actual : Value

pub record PositionChange : Type 0 where
  pub user_id : String
  pub field : String
  pub expected : ℤ
  pub actual : ℤ

pub record OrderBookDiff : Type 0 where
  pub best_bid_mismatch : Bool
  pub best_ask_mismatch : Bool
  pub bid_depth_mismatch : Bool
  pub ask_depth_mismatch : Bool
  pub spread_mismatch : Bool
  pub pre_best_bid : ℤ
  pub post_best_bid : ℤ
  pub pre_best_ask : ℤ
  pub post_best_ask : ℤ
  pub pre_bid_depth : ℤ
  pub post_bid_depth : ℤ
  pub pre_ask_depth : ℤ
  pub post_ask_depth : ℤ
  pub pre_spread : ℤ
  pub post_spread : ℤ

pub record SnapshotDiff : Type 0 where
  pub pre_checksum : String
  pub post_checksum : String
  pub is_identical : Bool
  pub timestamp : ℤ
  pub event_count_mismatch : Option CountMismatch
  pub order_count_mismatch : Option CountMismatch
  pub trade_count_mismatch : Option CountMismatch
  pub position_count_mismatch : Option CountMismatch
  pub missing_orders : List String
  pub extra_orders : List String
  pub changed_orders : List OrderChange
  pub missing_trades : List String
  pub extra_trades : List String
  pub missing_positions : List String
  pub extra_positions : List String
  pub changed_positions : List PositionChange
  pub order_book_diff : Option OrderBookDiff
