-- ===== src/Book/Orders.antt =====
-- `MatchOrder`, `addOrderToBook`, `GetDepth` and `CancelOrder` of biz/service/orderbook.go.
use cex_hertz_backend.Base.{
  ℕ, suc, ◌+◌, ℤ, pos, pos_part, String, str_eq, Bool, not, Option, none, some, List, [], ◌∷◌, ◌++◌,
  lookup, insert, erase, ltb_ℤ, add64, sub64, length, take, keep, map, if◌then◌else◌,
}
use cex_hertz_backend.Events.Types.{QuantityInNano, TradeExecutedEvent}
use cex_hertz_backend.Book.Levels.{SkipList}
use cex_hertz_backend.Book.Types.{OrderBookEntry, Float64, Comparable, OrderBook}
use cex_hertz_backend.Book.Matching.{Taker, buyer, seller, Progress, match_loop}

pub data CancelError : Type 0 where
  order_not_found partially_filled : String → CancelError

-- The number of the orders on one side of a book.
abbrev pub order_count : List (ℤ × List OrderBookEntry) → ℕ
order_count [] = 0
order_count ((k, q) ∷ l) = length q + order_count l

abbrev pub queue_or_empty : Option (List OrderBookEntry) → List OrderBookEntry
queue_or_empty none = []
queue_or_empty (some queue) = queue

module _ {F : Float64} (L : SkipList (List OrderBookEntry) (Comparable F)) where
  abbrev is_buy : OrderBookEntry → Bool
  is_buy order = str_eq order.side "buy"

  -- The side `book` with a copy of the order at the end of its level.
  unfoldable pub enqueue : L.Levels → OrderBookEntry → QuantityInNano → L.Levels
  enqueue book order qty =
      L.set order.price
        (queue_or_empty (L.get order.price book)
          ++ record order { quantity = qty; filled_qty = pos 0 } ∷ [])
        book

  unfoldable pub add_order_to_book : OrderBook F L → OrderBookEntry → QuantityInNano → OrderBook F L
  unfolding enqueue
  add_order_to_book ob order qty =
      if is_buy order
      then record ob { buys = enqueue ob.buys order qty }
      else record ob { sells = enqueue ob.sells order qty }

  -- The loop against one side, on enough fuel for each of its orders.
  unfoldable pub match_against :
      Taker → (ℕ → ℤ) → OrderBook F L → L.Levels → OrderBookEntry → Option (Progress L)
  match_against taker now ob levels order =
      match_loop L (suc (suc (order_count (L.view levels)))) taker now ob.symbol order (record {
        levels = levels;
        remaining_qty = order.quantity;
        events = [];
        sequencer = ob.sequencer;
      })

  unfoldable pub match_buy_order : (ℕ → ℤ) → OrderBook F L → OrderBookEntry → Option (Progress L)
  match_buy_order now ob order = match_against buyer now ob ob.sells order

  unfoldable pub match_sell_order : (ℕ → ℤ) → OrderBook F L → OrderBookEntry → Option (Progress L)
  match_sell_order now ob order = match_against seller now ob ob.buys order

  -- The book behind the loop: what is left of the order is added, and the order is recorded.
  unfoldable pub settle : OrderBook F L → OrderBookEntry → QuantityInNano → OrderBook F L
  settle ob order remaining =
      let ob' = if ltb_ℤ (pos 0) remaining then add_order_to_book ob order remaining else ob in
      record ob' { orders = insert order.order_id order ob'.orders }

  abbrev after_buy :
      OrderBook F L
      → OrderBookEntry
      → Progress L
      → OrderBook F L × List TradeExecutedEvent × QuantityInNano
  after_buy ob order p = (
    settle (record ob { sells = p.levels; sequencer = p.sequencer }) order p.remaining_qty,
    p.events,
    p.remaining_qty,
  )

  abbrev after_sell :
      OrderBook F L
      → OrderBookEntry
      → Progress L
      → OrderBook F L × List TradeExecutedEvent × QuantityInNano
  after_sell ob order p = (
    settle (record ob { buys = p.levels; sequencer = p.sequencer }) order p.remaining_qty,
    p.events,
    p.remaining_qty,
  )

  -- `none` is fuel that ran out.
  unfoldable pub match_order :
      (ℕ → ℤ)
      → OrderBook F L
      → OrderBookEntry
      → Option (OrderBook F L × List TradeExecutedEvent × QuantityInNano)
  unfolding match_buy_order match_sell_order
  match_order now ob order =
      if is_buy order
      then elim (match_buy_order now ob order) [
        | none ↦ none
        | some p ↦ some (after_buy ob order p)
      ]
      else elim (match_sell_order now ob order) [
        | none ↦ none
        | some p ↦ some (after_sell ob order p)
      ]

  -- The open quantity of a level, as `GetDepth` adds it up.
  abbrev pub total_qty : QuantityInNano → List OrderBookEntry → QuantityInNano
  total_qty total [] = total
  total_qty total (e ∷ es) = total_qty (add64 total (sub64 e.quantity e.filled_qty)) es

  -- One line of the depth; `format` is fmt.Sprintf("%.8f", float64(x)/1e8).
  abbrev depth_line : (ℤ → String) → ℤ × List OrderBookEntry → String × String
  depth_line format (price, queue) = (format price, format (total_qty (pos 0) queue))

  unfoldable pub get_depth :
      (ℤ → String) → OrderBook F L → ℤ → List (String × String) × List (String × String)
  get_depth format ob levels = (
    map (depth_line format) (take (pos_part levels) (L.view ob.buys)),
    map (depth_line format) (take (pos_part levels) (L.view ob.sells)),
  )

  abbrev pub others : String → List OrderBookEntry → List OrderBookEntry
  others id = keep (λ (e : OrderBookEntry). not (str_eq e.order_id id))

  abbrev pub replace_queue : L.Levels → ℤ → List OrderBookEntry → L.Levels
  replace_queue book price [] = L.remove price book
  replace_queue book price (e ∷ es) = L.set price (e ∷ es) book

  -- The side `book` without the order.
  unfoldable pub take_out : L.Levels → ℤ → String → L.Levels
  take_out book price id = elim (L.get price book) [
    | none ↦ book
    | some queue ↦ replace_queue book price (others id queue)
  ]

  unfoldable pub cancel_found : OrderBook F L → String → OrderBookEntry → OrderBook F L
  unfolding take_out
  cancel_found ob id order =
      let ob' = record ob { orders = erase id ob.orders } in
      if is_buy order
      then record ob' { buys = take_out ob.buys order.price id }
      else record ob' { sells = take_out ob.sells order.price id }

  unfoldable pub cancel_order : OrderBook F L → String → OrderBook F L × Option CancelError
  unfolding cancel_found
  cancel_order ob id = elim (lookup id ob.orders) [
    | none ↦ (ob, some (order_not_found id))
    | some order ↦
        if ltb_ℤ (pos 0) order.filled_qty
        then (ob, some (partially_filled id))
        else (cancel_found ob id order, none)
  ]
