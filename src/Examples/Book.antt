-- ===== src/Examples/Book.antt =====
-- The order book at concrete inputs. A float64 is read as an integer.
use cex_hertz_backend.Base.{
  pos_part, ◌+◌, ℕ, ◌<◌, ℤ, pos, negsuc, ◌<ℤ◌, ◌-ℤ◌, String, true, false, none, some, List, [], ◌∷◌,
  ◌≡◌, ◌≢◌, ◌↔◌, refl, arith, lookup, insert, str_eq_iff,
}
use cex_hertz_backend.Events.Types.{TradeExecutedEvent}
use cex_hertz_backend.Sequencer.{new_sequencer}
use cex_hertz_backend.Book.Levels.{SkipList}
use cex_hertz_backend.Book.Types.{
  OrderBookEntry, Float64, Comparable, OrderBook, new_order_book, price_comparator_asc,
  price_comparator_desc, compare_desc,
}
use cex_hertz_backend.Book.Matching.{buyer, seller, Progress, match_loop, round}
use cex_hertz_backend.Book.Orders.{
  match_order, cancel_order, match_against, settle, add_order_to_book, enqueue,
}
use cex_hertz_backend.Book.Matched.{rank}
use cex_hertz_backend.Book.Settled.{
  IsBook, Settled, match_order-Settled_buy, match_order-Settled_sell,
}
use cex_hertz_backend.Book.Stock.{traded}
use cex_hertz_backend.Book.Wellformed.{Traded, opened, ordered, Traded-match_order}
use cex_hertz_backend.Book.Cancel.{Reached, fresh, matched, cancel_order-Reached}
use cex_hertz_backend.Book.Priority.{comparator_of}
use cex_hertz_backend.Examples.Levels.{sorted_list}

abbrev pub floats : Float64
floats = record { Float = ℤ; of_int64 = λ a. a; negate = λ a. pos 0 -ℤ a }

abbrev pub skip_list : SkipList (List OrderBookEntry) (Comparable floats)
unfolding sorted_list
skip_list = sorted_list (λ c. c.compare)

abbrev order_of : String → String → ℤ → ℤ → OrderBookEntry
order_of id side price quantity = record {
  order_id = id;
  user_id = "u-1";
  symbol = "BTCUSDT";
  side = side;
  price = price;
  quantity = quantity;
  filled_qty = pos 0;
  submit_time = pos 0;
  sequence_num = 1;
}

abbrev pub clock_at : ℕ → ℤ
clock_at n = pos 1000

-- A book with a bid of 5 at 99 and an offer of 3 at 101.
abbrev pub book : OrderBook floats skip_list
unfolding sorted_list
book = record {
  symbol = "BTCUSDT";
  buys = (price_comparator_desc floats, (pos 99, order_of "b-1" "buy" (pos 99) (pos 5) ∷ []) ∷ []);
  sells =
      (price_comparator_asc floats, (pos 101, order_of "s-1" "sell" (pos 101) (pos 3) ∷ []) ∷ []);
  orders = [];
  sequencer = new_sequencer;
}

pub book-IsBook : IsBook skip_list book
unfolding sorted_list
book-IsBook = (
  (((λ e. cc), ((refl, omega arith, omega arith), tt)), tt),
  (((λ e. cc), ((refl, omega arith, omega arith), tt)), tt),
)

match_order-Settled_buy_example :
    (ob' : OrderBook floats skip_list) × (es : List TradeExecutedEvent) × (rest : ℤ) × (match_order
        skip_list clock_at book
        (order_of "b-2" "buy" (pos 101) (pos 4))
      ≡ some (ob', es, rest))
    × Settled skip_list buyer book (order_of "b-2" "buy" (pos 101) (pos 4)) ob' es rest
match_order-Settled_buy_example =
    match_order-Settled_buy skip_list clock_at book (order_of "b-2" "buy" (pos 101) (pos 4)) refl
      book-IsBook (omega arith)

sell_differs_example : ◌≢◌ {A = String} "sell" "buy"
sell_differs_example = λ e. let same : false ≡ true = (str_eq_iff "sell" "buy").1 e in cc

match_order-Settled_sell_example :
    (ob' : OrderBook floats skip_list) × (es : List TradeExecutedEvent) × (rest : ℤ) × (match_order
        skip_list clock_at book
        (order_of "s-2" "sell" (pos 98) (pos 2))
      ≡ some (ob', es, rest))
    × Settled skip_list seller book (order_of "s-2" "sell" (pos 98) (pos 2)) ob' es rest
match_order-Settled_sell_example =
    match_order-Settled_sell skip_list clock_at book (order_of "s-2" "sell" (pos 98) (pos 2))
      sell_differs_example book-IsBook (omega arith)

-- The variables of the loop before a buy order of 4.
abbrev progress : Progress skip_list
progress = record {
  levels = book.sells;
  remaining_qty = pos 4;
  events = [];
  sequencer = new_sequencer;
}

rank_example :
    rank skip_list buyer clock_at "BTCUSDT" (order_of "b-2" "buy" (pos 101) (pos 4)) progress < 3
unfolding rank sorted_list
rank_example = omega arith

-- The book behind its first order.
abbrev placed : OrderBook floats skip_list
unfolding sorted_list
placed = record {
  symbol = "BTCUSDT";
  buys = (price_comparator_desc floats, (pos 99, order_of "b-1" "buy" (pos 99) (pos 5) ∷ []) ∷ []);
  sells = (price_comparator_asc floats, []);
  orders = ("b-1", order_of "b-1" "buy" (pos 99) (pos 5)) ∷ [];
  sequencer = new_sequencer;
}

placed-match_order :
    match_order skip_list clock_at
      (new_order_book floats skip_list "BTCUSDT" new_sequencer)
      (order_of "b-1" "buy" (pos 99) (pos 5))
    ≡ some (placed, [], pos 5)
unfolding sorted_list match_order new_order_book match_against match_loop round settle
    add_order_to_book enqueue insert
placed-match_order = refl

placed-Reached : Reached skip_list placed
placed-Reached =
    matched clock_at (order_of "b-1" "buy" (pos 99) (pos 5)) (fresh "BTCUSDT" new_sequencer) refl
      placed-match_order

cancel_order-Reached_example :
    (((cancel_order skip_list placed "b-1").1 ≡ none) ↔ (lookup "b-1" placed.orders ≢ none))
    × (lookup "b-1" (cancel_order skip_list placed "b-1").0.orders ≡ none)
cancel_order-Reached_example = cancel_order-Reached skip_list "b-1" placed-Reached

placed-Traded : Traded skip_list placed
placed-Traded =
    ordered clock_at (order_of "b-1" "buy" (pos 99) (pos 5)) (opened "BTCUSDT" new_sequencer)
      (omega arith) placed-match_order

Traded-match_order_example :
    IsBook skip_list placed
    × (ob' : OrderBook floats skip_list) × (es : List TradeExecutedEvent) × (rest : ℤ)
    × (match_order skip_list clock_at placed (order_of "s-2" "sell" (pos 98) (pos 2))
        ≡ some (ob', es, rest))
    × (pos_part rest + traded es ≡ 2)
    × Traded skip_list ob'
Traded-match_order_example =
    Traded-match_order skip_list clock_at (order_of "s-2" "sell" (pos 98) (pos 2)) placed-Traded
      (omega arith)

before_example : (comparator_of floats buyer).compare (pos 101) (pos 99) ≡ negsuc 0
unfolding price_comparator_desc compare_desc
before_example = refl

negate_example : (x y : ℤ) → x <ℤ y → (pos 0 -ℤ y) <ℤ (pos 0 -ℤ x)
unfolding ◌-ℤ◌
negate_example x y h = ground arith
