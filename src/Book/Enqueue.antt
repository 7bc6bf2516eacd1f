-- ===== src/Book/Enqueue.antt =====
-- `addOrderToBook` of biz/service/orderbook.go: what it adds to one side of a book.
use cex_hertz_backend.Base.{
  ◌+◌, ◌<◌, ℤ, pos, pos_part, none, some, List, [], ◌∷◌, ◌++◌, ◌≡◌, ◌≢◌, inl, inr, refl, sym, ◌∙◌,
  arith, All, All-append, eq_ℤ, Option-cases, Bool-cases,
}
use cex_hertz_backend.Book.Levels.{SkipList, find_level, put_level}
use cex_hertz_backend.Book.Types.{OrderBookEntry, Float64, Comparable}
use cex_hertz_backend.Book.Orders.{enqueue}
use cex_hertz_backend.Book.Stock.{IsLive, IsQuantity, IsStocked, open_qty, open_queue, open_levels}

abbrev Level : Type 0
Level = ℤ × List OrderBookEntry

IsStocked-split : (xs ys : List Level) → IsStocked (xs ++ ys) → IsStocked xs × IsStocked ys
IsStocked-split [] ys h = (tt, h)
IsStocked-split (x ∷ xs) ys h = let (hx, hy) = IsStocked-split xs ys h.1 in ((h.0, hx), hy)

IsStocked-append : (xs ys : List Level) → IsStocked xs → IsStocked ys → IsStocked (xs ++ ys)
IsStocked-append xs ys = All-append (λ lv. (lv.1 ≢ []) × All IsLive lv.1) xs ys

open_levels-append : (xs ys : List Level) → open_levels (xs ++ ys) ≡ open_levels xs + open_levels ys
open_levels-append [] ys = omega arith
open_levels-append ((k, q) ∷ xs) ys = omega (arith, open_levels-append xs ys)

open_queue-append :
    (q : List OrderBookEntry) (e : OrderBookEntry)
    → open_queue (q ++ e ∷ []) ≡ open_queue q + open_qty e
open_queue-append [] e = omega arith
open_queue-append (x ∷ q) e = omega (arith, open_queue-append q e)

append-ne-nil : (q : List OrderBookEntry) (e : OrderBookEntry) → q ++ e ∷ [] ≢ []
append-ne-nil [] e h = cc
append-ne-nil (x ∷ q) e h = cc

module _ (k : ℤ) (e : OrderBookEntry) (live : IsLive e) where
  put_level-IsStocked :
      (l : List Level) {q : List OrderBookEntry}
      → find_level k l ≡ some q
      → IsStocked l
      → IsStocked (put_level k (q ++ e ∷ []) l)
        × (open_levels (put_level k (q ++ e ∷ []) l) ≡ open_levels l + open_qty e)
  put_level-IsStocked [] h s = cc
  put_level-IsStocked ((j, w) ∷ l) {q} h s = elim (Bool-cases (eq_ℤ j k)) [
    | inl same ↦
        let q-w : w ≡ q = ground arith in
        rw (same, ← q-w)
          (
            ((append-ne-nil w e, All-append IsLive w (e ∷ []) s.0.1 (live, tt)), s.1),
            omega (arith, open_queue-append w e),
          )
    | inr other ↦
        let (st, op) = put_level-IsStocked l (rw other at h) s.1 in
        rw other ((s.0, st), omega (arith, op))
  ]

module _ {F : Float64} (L : SkipList (List OrderBookEntry) (Comparable F)) (book : L.Levels)
    (order : OrderBookEntry) (rem : ℤ) (q : IsQuantity rem) (r : 0 < pos_part rem)
    (s : IsStocked (L.view book)) where
  abbrev resting : OrderBookEntry
  resting = record order { quantity = rem; filled_qty = pos 0 }

  resting-IsLive : IsLive resting
  resting-IsLive = (refl, r, q.1)

  -- The rest of the order is all that the side gains, and the side stays well-formed.
  pub enqueue-IsStocked :
      IsStocked (L.view (enqueue L book order rem))
      × (open_levels (L.view (enqueue L book order rem)) ≡ open_levels (L.view book) + pos_part rem)
  unfolding enqueue
  enqueue-IsStocked = elim (Option-cases (find_level order.price (L.view book))) [
    | inl e ↦
        let got : L.get order.price book ≡ none = L.get-view order.price book ∙ e in
        let (before, after, was, now) = L.view-set_new order.price (resting ∷ []) book e in
        let (sb, sa) = IsStocked-split before after (rw was at s) in
        rw (got, enqueue)
          (rw (now, was)
            (
              IsStocked-append before ((order.price, resting ∷ []) ∷ after) sb
                  ((((λ n. cc), (resting-IsLive, tt)), sa)),
              omega (
                arith,
                open_levels-append before after,
                open_levels-append before ((order.price, resting ∷ []) ∷ after),
              ),
            ))
    | inr (w, e) ↦
        let got : L.get order.price book ≡ some w = L.get-view order.price book ∙ e in
        let set = L.view-set order.price (w ++ resting ∷ []) book (λ n. cc (sym e ∙ n)) in
        let (st, op) = put_level-IsStocked order.price resting resting-IsLive (L.view book) e s in
        rw (got, enqueue) (rw set (st, omega (arith, op)))
  ]
