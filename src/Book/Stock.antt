-- ===== src/Book/Stock.antt =====
-- The quantities on one side of a book as natural numbers, and one round of a matching loop of
-- biz/service/orderbook.go over them.
use Prim.Native.Nat.{min}
use cex_hertz_backend.Base.{
  ℕ, ◌+◌, ◌-◌, ◌^◌, ◌≤◌, ◌<◌, ℤ, pos, negsuc, pos_part, neg_part, Bool, true, false, List, [], ◌∷◌,
  ◌++◌, ◌≡◌, ◌≢◌, ◌∙◌, arith, All, add64, sub64, add64_exact, sub64_exact, ◌+ℤ◌, eq_of_parts,
  -ℤ_parts, leb_ℤ, eq_ℤ, if◌then◌else◌,
}
use cex_hertz_backend.Events.Types.{TradeExecutedEvent, min_quantity}
use cex_hertz_backend.Book.Levels.{SkipList}
use cex_hertz_backend.Book.Types.{OrderBookEntry, Float64, Comparable}
use cex_hertz_backend.Book.Matching.{drop_first, fill_first}

-- An entry of a book: something of it is open, and its quantity is an int64.
abbrev pub IsLive : OrderBookEntry → Type 0
IsLive e =
    (neg_part e.filled_qty ≡ 0)
    × (pos_part e.filled_qty < pos_part e.quantity)
    × (pos_part e.quantity < 2 ^ 63)

-- A quantity that is not negative.
abbrev pub IsQuantity : ℤ → Type 0
IsQuantity a = (neg_part a ≡ 0) × (pos_part a < 2 ^ 63)

-- No level is empty, and each entry is live.
abbrev pub IsStocked : List (ℤ × List OrderBookEntry) → Type 0
IsStocked = All λ lv. (lv.1 ≢ []) × All IsLive lv.1

abbrev pub open_qty : OrderBookEntry → ℕ
open_qty e = pos_part e.quantity - pos_part e.filled_qty

abbrev pub open_queue : List OrderBookEntry → ℕ
open_queue [] = 0
open_queue (e ∷ es) = open_qty e + open_queue es

abbrev pub open_levels : List (ℤ × List OrderBookEntry) → ℕ
open_levels [] = 0
open_levels ((k, q) ∷ l) = open_queue q + open_levels l

abbrev pub traded : List TradeExecutedEvent → ℕ
traded [] = 0
traded (e ∷ es) = pos_part e.quantity + traded es

traded-append : (xs ys : List TradeExecutedEvent) → traded (xs ++ ys) ≡ traded xs + traded ys
traded-append [] ys = omega arith
traded-append (x ∷ xs) ys = omega (arith, traded-append xs ys)

pos-eq : (a : ℤ) (n : ℕ) → neg_part a ≡ 0 → pos_part a ≡ n → a ≡ pos n
pos-eq (pos m) n h e = ground arith
pos-eq (negsuc m) n h e = absurd (omega arith)

pub sub64_pos :
    (a b : ℤ)
    → IsQuantity a
    → neg_part b ≡ 0
    → pos_part b ≤ pos_part a
    → sub64 a b ≡ pos (pos_part a - pos_part b)
sub64_pos a b h k l =
    rw (sub64_exact a b (omega arith) (omega arith) (omega arith))
      (eq_of_parts _ _ (omega (arith, -ℤ_parts a b)))

add64_pos :
    (a : ℤ) (n : ℕ)
    → neg_part a ≡ 0
    → pos_part a + n < 2 ^ 63
    → add64 a (pos n) ≡ pos (pos_part a + n)
unfolding ◌+ℤ◌
add64_pos a n h l = add64_exact a (pos n) (ground arith) ∙ ground arith

pub min_quantity_pos :
    (a : ℤ) (n : ℕ) → neg_part a ≡ 0 → min_quantity a (pos n) ≡ pos (min (pos_part a) n)
unfolding min_quantity
min_quantity_pos a n h = ground arith

-- A level with its first orders gone: no level where none is left.
abbrev pub restore :
    ℤ → List OrderBookEntry → List (ℤ × List OrderBookEntry) → List (ℤ × List OrderBookEntry)
restore best [] l = l
restore best (e ∷ es) l = (best, e ∷ es) ∷ l

eq_ℤ_refl : (a : ℤ) → eq_ℤ a a ≡ true
eq_ℤ_refl a = ground arith

view-if :
    {A B : Type 0} (view : A → B) (b : Bool) {x y : A} {u w : B}
    → view x ≡ u
    → view y ≡ w
    → view (if b then x else y) ≡ (if b then u else w)
view-if view true e f = e
view-if view false e f = f

module _ {F : Float64} (L : SkipList (List OrderBookEntry) (Comparable F)) (levels : L.Levels)
    (best : ℤ) {q : List OrderBookEntry} {l : List (ℤ × List OrderBookEntry)}
    (v : L.view levels ≡ (best, q) ∷ l) where
  view-set_first : (q' : List OrderBookEntry) → L.view (L.set best q' levels) ≡ (best, q') ∷ l
  view-set_first q' =
      rw (L.view-set best q' levels (rw (v, eq_ℤ_refl best) (λ e. cc)), v, eq_ℤ_refl best)

  view-drop_first :
      (rest : List OrderBookEntry) → L.view (drop_first L levels best rest) ≡ restore best rest l
  view-drop_first [] = rw (L.view-remove best levels, v, eq_ℤ_refl best)
  view-drop_first (e ∷ es) = view-set_first (e ∷ es)

  -- The view after a trade of `n` with the first order.
  pub view-fill_first :
      (maker : OrderBookEntry) (rest : List OrderBookEntry) (n : ℕ)
      → IsLive maker
      → n ≤ open_qty maker
      → L.view (fill_first L levels best maker rest (pos n)) ≡ (
          if leb_ℤ maker.quantity (pos (pos_part maker.filled_qty + n))
          then restore best rest l
          else (best, record maker { filled_qty = pos (pos_part maker.filled_qty + n) } ∷ rest) ∷ l)
  view-fill_first maker rest n h k = rw (add64_pos maker.filled_qty n h.0 (omega arith)) (
      view-if L.view (leb_ℤ maker.quantity (pos (pos_part maker.filled_qty + n)))
        (view-drop_first rest)
        (view-set_first (record maker { filled_qty = pos (pos_part maker.filled_qty + n) } ∷ rest)))
