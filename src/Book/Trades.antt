-- ===== src/Book/Trades.antt =====
-- The words in which the matching loops of biz/service/orderbook.go are specified: the ids on one
-- side of a book, the trades that are fair to an order, and a level without its first order.
use cex_hertz_backend.Base.{
  ◌+◌, ◌<◌, ℤ, ◌≤ℤ◌, ◌<ℤ◌, pos_part, neg_part, String, true, false, List, [], ◌∷◌, ◌++◌, ◌≡◌, refl,
  arith, All, length, map,
}
use cex_hertz_backend.Events.Types.{TradeExecutedEvent}
use cex_hertz_backend.Book.Types.{OrderBookEntry}
use cex_hertz_backend.Book.Matching.{Taker, buyer, seller, crosses}
use cex_hertz_backend.Book.Orders.{order_count}
use cex_hertz_backend.Book.Stock.{IsLive, IsStocked, open_queue, open_levels, restore}

-- The ids of the orders on one side with the prices of their levels, in the order of the levels and
-- queues.
abbrev pub queue_offers : ℤ → List OrderBookEntry → List (String × ℤ)
queue_offers k = map λ e. (e.order_id, k)

abbrev pub level_offers : List (ℤ × List OrderBookEntry) → List (String × ℤ)
level_offers [] = []
level_offers ((k, q) ∷ l) = queue_offers k q ++ level_offers l

abbrev pub maker_offers : List TradeExecutedEvent → List (String × ℤ)
maker_offers = map λ e. (e.maker_order_id, e.price)

-- A best price that an order at `price` takes: no higher where it buys, no lower where it sells.
abbrev pub Accepts : Taker → ℤ → ℤ → Type 0
Accepts buyer price best = best ≤ℤ price
Accepts seller price best = price ≤ℤ best

abbrev pub Declines : Taker → ℤ → ℤ → Type 0
Declines buyer price best = price <ℤ best
Declines seller price best = best <ℤ price

pub crosses-Accepts :
    (taker : Taker) (price best : ℤ) → crosses taker price best ≡ true → Accepts taker price best
unfolding crosses
crosses-Accepts buyer price best h = ground arith
crosses-Accepts seller price best h = ground arith

pub crosses-Declines :
    (taker : Taker) (price best : ℤ) → crosses taker price best ≡ false → Declines taker price best
unfolding crosses
crosses-Declines buyer price best h = ground arith
crosses-Declines seller price best h = ground arith

-- The best level, if there is one, does not trade at `price`.
abbrev pub Uncrossed : Taker → ℤ → List (ℤ × List OrderBookEntry) → Type 0
Uncrossed taker price [] = Unit
Uncrossed taker price ((k, q) ∷ l) = Declines taker price k

-- A trade for the order, at a price that the order accepts.
abbrev pub IsFair : Taker → String → OrderBookEntry → TradeExecutedEvent → Type 0
IsFair taker symbol order e =
    (0 < pos_part e.quantity)
    × (neg_part e.quantity ≡ 0)
    × Accepts taker order.price e.price
    × (e.taker_order_id ≡ order.order_id)
    × (e.taker_user ≡ order.user_id)
    × (e.symbol_str ≡ symbol)

pub order_count-restore :
    (k : ℤ) (q : List OrderBookEntry) (l : List (ℤ × List OrderBookEntry))
    → order_count (restore k q l) ≡ length q + order_count l
order_count-restore k [] l = omega arith
order_count-restore k (e ∷ q) l = refl

pub open_levels-restore :
    (k : ℤ) (q : List OrderBookEntry) (l : List (ℤ × List OrderBookEntry))
    → open_levels (restore k q l) ≡ open_queue q + open_levels l
open_levels-restore k [] l = omega arith
open_levels-restore k (e ∷ q) l = refl

pub level_offers-restore :
    (k : ℤ) (q : List OrderBookEntry) (l : List (ℤ × List OrderBookEntry))
    → level_offers (restore k q l) ≡ queue_offers k q ++ level_offers l
level_offers-restore k [] l = refl
level_offers-restore k (e ∷ q) l = refl

pub IsStocked-restore :
    (k : ℤ) (q : List OrderBookEntry) (l : List (ℤ × List OrderBookEntry))
    → All IsLive q
    → IsStocked l
    → IsStocked (restore k q l)
IsStocked-restore k [] l a s = s
IsStocked-restore k (e ∷ q) l a s = (((λ n. cc), a), s)
