-- ===== src/Book/Types.antt =====
-- The data of biz/service/orderbook.go: entries, the two price comparators and the book.
use cex_hertz_backend.Base.{ℕ, ℤ, pos, negsuc, String, List, [], Dict, ltb_ℤ, if◌then◌else◌}
use cex_hertz_backend.Events.Types.{PriceInNano, QuantityInNano}
use cex_hertz_backend.Sequencer.{Sequencer}
use cex_hertz_backend.Book.Levels.{SkipList}

pub record OrderBookEntry : Type 0 where
  pub order_id : String
  pub user_id : String
  pub symbol : String
  pub side : String
  pub price : PriceInNano
  pub quantity : QuantityInNano
  pub filled_qty : QuantityInNano
  pub submit_time : ℤ
  pub sequence_num : ℕ

-- `PriceComparatorDesc.Compare` and `PriceComparatorAsc.Compare`.
unfoldable pub compare_desc : PriceInNano → PriceInNano → ℤ
compare_desc a b = if ltb_ℤ b a then negsuc 0 else if ltb_ℤ a b then pos 1 else pos 0

unfoldable pub compare_asc : PriceInNano → PriceInNano → ℤ
compare_asc a b = if ltb_ℤ a b then negsuc 0 else if ltb_ℤ b a then pos 1 else pos 0

-- What a comparator needs of float64: the conversion of an int64, and the change of sign.
pub record Float64 : Type 1 where
  pub Float : Type 0
  pub of_int64 : ℤ → Float
  pub negate : Float → Float

module _ (F : Float64) where
  -- The interface `skiplist.Comparable`.
  pub record Comparable : Type 0 where
    pub compare : PriceInNano → PriceInNano → ℤ
    pub calc_score : PriceInNano → F.Float

  unfoldable pub price_comparator_desc : Comparable
  price_comparator_desc = record { compare = compare_desc; calc_score = λ p. F.of_int64 p }

  unfoldable pub price_comparator_asc : Comparable
  price_comparator_asc = record { compare = compare_asc; calc_score = λ p. F.negate (F.of_int64 p) }

  -- The lock serialises the methods, so that a call is one step. The entries of the queues are
  -- made by `addOrderToBook` and shared with nothing else, so a queue holds them by value.
  module _ (L : SkipList (List OrderBookEntry) Comparable) where
    pub record OrderBook : Type 0 where
      pub symbol : String
      pub buys : L.Levels
      pub sells : L.Levels
      pub orders : Dict OrderBookEntry
      pub sequencer : Sequencer

    unfoldable pub new_order_book : String → Sequencer → OrderBook
    unfolding price_comparator_desc price_comparator_asc
    new_order_book symbol sequencer = record {
      symbol = symbol;
      buys = L.new price_comparator_desc;
      sells = L.new price_comparator_asc;
      orders = [];
      sequencer = sequencer;
    }
