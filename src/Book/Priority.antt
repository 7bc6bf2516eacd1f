-- ===== src/Book/Priority.antt =====
-- The comparators of biz/service/orderbook.go: the order that `Compare` gives, and the scores that
-- `CalcScore` gives beside it.
use cex_hertz_backend.Base.{ℤ, negsuc, ◌<ℤ◌, ◌≡◌, ◌↔◌, arith}
use cex_hertz_backend.Book.Types.{
  Float64, Comparable, compare_desc, compare_asc, price_comparator_desc, price_comparator_asc,
}
use cex_hertz_backend.Book.Matching.{Taker, buyer, seller}

module _ (F : Float64) where
  -- The comparator that `NewOrderBook` gives to the side on which an order rests.
  abbrev pub comparator_of : Taker → Comparable F
  comparator_of buyer = price_comparator_desc F
  comparator_of seller = price_comparator_asc F

  -- The price that is better for the other side: a higher one to buy at, a lower one to sell at.
  abbrev pub Better : Taker → ℤ → ℤ → Type 0
  Better buyer a b = b <ℤ a
  Better seller a b = a <ℤ b

  -- `Compare` puts a price before another exactly if it is the better one for its side.
  compare-Better :
      (side : Taker) (a b : ℤ) → ((comparator_of side).compare a b ≡ negsuc 0) ↔ Better side a b
  unfolding price_comparator_desc price_comparator_asc compare_desc compare_asc
  compare-Better buyer a b = ground arith
  compare-Better seller a b = ground arith

  -- Where the conversion to float64 keeps the order of two prices, and a change of sign reverses
  -- it, the price that `Compare` puts first has the higher score, on both sides: the scores run
  -- against the order.
  pub calc_score_against :
      (Lower : F.Float → F.Float → Type 0) (side : Taker) (a b : ℤ)
      → (a <ℤ b → Lower (F.of_int64 a) (F.of_int64 b))
      → (b <ℤ a → Lower (F.of_int64 b) (F.of_int64 a))
      → ((x y : F.Float) → Lower x y → Lower (F.negate y) (F.negate x))
      → (comparator_of side).compare a b ≡ negsuc 0
      → Lower ((comparator_of side).calc_score b) ((comparator_of side).calc_score a)
  unfolding price_comparator_desc price_comparator_asc
  calc_score_against Lower buyer a b up down reverses h = down ((compare-Better buyer a b).0 h)
  calc_score_against Lower seller a b up down reverses h =
      reverses _ _ (up ((compare-Better seller a b).0 h))
