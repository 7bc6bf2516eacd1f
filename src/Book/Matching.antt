-- ===== src/Book/Matching.antt =====
-- The matching loops, `MatchOrder` and `addOrderToBook` of biz/service/orderbook.go. The readings of
-- `time.Now().UnixMilli()` are an argument: `now n` for the n-th trade of a call.
use Prim.Native.String.{◌++◌}
use cex_hertz_backend.Base.{
  ℕ, zero, suc, ℤ, pos, String, Bool, ◌&&◌, not, Option, none, some, List, [], ◌∷◌, ltb, ltb_ℤ,
  leb_ℤ, add64, sub64, decimal, length, if◌then◌else◌,
}
use cex_hertz_backend.Base.{◌++◌ as append}
use cex_hertz_backend.Events.Types.{PriceInNano, QuantityInNano, TradeExecutedEvent, min_quantity}
use cex_hertz_backend.Sequencer.{Sequencer, next_global_seq}
use cex_hertz_backend.Book.Levels.{SkipList}
use cex_hertz_backend.Book.Types.{OrderBookEntry, Float64, Comparable}

-- `order.Side == "buy"`, and the two loops that it chooses between.
pub data Taker : Type 0 where
  buyer seller : Taker

-- Whether an order at `price` trades at the best price of the other side.
unfoldable pub crosses : Taker → PriceInNano → PriceInNano → Bool
crosses buyer price best = not (ltb_ℤ price best)
crosses seller price best = not (ltb_ℤ best price)

abbrev pub side_name : Taker → String
side_name buyer = "buy"
side_name seller = "sell"

-- fmt.Sprintf("%s-%s-%d", symbol, order, n)
unfoldable pub trade_id : String → String → ℕ → String
trade_id symbol order n = symbol ++ "-" ++ order ++ "-" ++ decimal n

module _ {F : Float64} (L : SkipList (List OrderBookEntry) (Comparable F)) where
  -- The variables of a matching loop; `levels` is the side of the makers.
  pub record Progress : Type 0 where
    pub levels : L.Levels
    pub remaining_qty : QuantityInNano
    pub events : List TradeExecutedEvent
    pub sequencer : Sequencer

  -- The level `best` without its first order: `Set`, or `Remove` where no order is left.
  abbrev pub drop_first : L.Levels → PriceInNano → List OrderBookEntry → L.Levels
  drop_first l best [] = L.remove best l
  drop_first l best (m ∷ rest) = L.set best (m ∷ rest) l

  -- `seller.FilledQty += tradeQty` writes through the pointer that the queue holds.
  abbrev pub fill_first :
      L.Levels → PriceInNano → OrderBookEntry → List OrderBookEntry → QuantityInNano → L.Levels
  fill_first l best maker rest qty =
      let maker' = record maker { filled_qty = add64 maker.filled_qty qty } in
      if leb_ℤ maker.quantity maker'.filled_qty
      then drop_first l best rest
      else L.set best (maker' ∷ rest) l

  abbrev pub trade :
      Taker
      → (ℕ → ℤ)
      → String
      → OrderBookEntry
      → OrderBookEntry
      → PriceInNano
      → QuantityInNano
      → List TradeExecutedEvent
      → Sequencer
      → TradeExecutedEvent
  trade taker now symbol order maker best qty events sequencer = record {
    seq = (next_global_seq sequencer).1;
    timestamp = now (length events);
    trade_id = trade_id symbol order.order_id (length events);
    symbol_str = symbol;
    taker_order_id = order.order_id;
    maker_order_id = maker.order_id;
    taker_user = order.user_id;
    maker_user = maker.user_id;
    price = best;
    quantity = qty;
    taker_side = side_name taker;
  }

  -- The body of the loop behind its breaks, for the first order of the best level.
  meet :
      Taker
      → (ℕ → ℤ)
      → String
      → OrderBookEntry
      → PriceInNano
      → OrderBookEntry
      → List OrderBookEntry
      → Progress
      → Progress
  meet taker now symbol order best maker rest p =
      let qty = min_quantity p.remaining_qty (sub64 maker.quantity maker.filled_qty) in
      if leb_ℤ qty (pos 0) then record p { levels = drop_first p.levels best rest } else record {
        levels = fill_first p.levels best maker rest qty;
        remaining_qty = sub64 p.remaining_qty qty;
        events =
            append p.events (trade taker now symbol order maker best qty p.events p.sequencer ∷ []);
        sequencer = (next_global_seq p.sequencer).0;
      }

  -- The tests of the best level; `none` is a break.
  at_front :
      Taker
      → (ℕ → ℤ)
      → String
      → OrderBookEntry
      → Option (PriceInNano × List OrderBookEntry)
      → Progress
      → Option Progress
  unfolding meet crosses
  at_front taker now symbol order none p = none
  at_front taker now symbol order (some (best, [])) p = none
  at_front taker now symbol order (some (best, maker ∷ rest)) p =
      if crosses taker order.price best
      then some (meet taker now symbol order best maker rest p)
      else none

  -- One round of the loop, with the test of its head.
  unfoldable pub round : Taker → (ℕ → ℤ) → String → OrderBookEntry → Progress → Option Progress
  unfolding at_front
  round taker now symbol order p =
      if ltb_ℤ (pos 0) p.remaining_qty && ltb 0 (L.len p.levels)
      then at_front taker now symbol order (L.front p.levels) p
      else none

  -- `none` is fuel that ran out.
  unfoldable pub match_loop :
      ℕ → Taker → (ℕ → ℤ) → String → OrderBookEntry → Progress → Option Progress
  match_loop zero taker now symbol order p = none
  match_loop (suc n) taker now symbol order p = elim (round taker now symbol order p) [
    | none ↦ some p
    | some p' ↦ match_loop n taker now symbol order p'
  ]
