-- ===== src/Book/Queue.antt =====
-- Where `addOrderToBook` of biz/service/orderbook.go puts an order: behind those at its price.
use cex_hertz_backend.Base.{
  ℤ, pos, true, none, some, List, [], ◌∷◌, ◌++◌, ◌≡◌, ◌≢◌, refl, sym, ◌∙◌, arith, eq_ℤ, Bool-cases,
  Option-cases, inl, inr,
}
use cex_hertz_backend.Events.Types.{QuantityInNano}
use cex_hertz_backend.Book.Levels.{SkipList, find_level, put_level}
use cex_hertz_backend.Book.Types.{OrderBookEntry, Float64, Comparable}
use cex_hertz_backend.Book.Orders.{enqueue, queue_or_empty}

eq_ℤ_refl : (k : ℤ) → eq_ℤ k k ≡ true
eq_ℤ_refl k = ground arith

module _ {V : Type 0} where
  find_level-put_level :
      (k : ℤ) (v : V) (l : List (ℤ × V))
      → find_level k l ≢ none
      → find_level k (put_level k v l) ≡ some v
  find_level-put_level k v [] h = absurd (h refl)
  find_level-put_level k v ((j, w) ∷ l) h = elim (Bool-cases (eq_ℤ j k)) [
    | inl y ↦ rw (y, y) refl
    | inr n ↦ rw (n, n) (find_level-put_level k v l (λ e. h (rw (n) e)))
  ]

  find_level-insert :
      (k : ℤ) (v : V) (before after : List (ℤ × V))
      → find_level k (before ++ after) ≡ none
      → find_level k (before ++ (k, v) ∷ after) ≡ some v
  find_level-insert k v [] after h = rw (eq_ℤ_refl k) refl
  find_level-insert k v ((j, w) ∷ before) after h = elim (Bool-cases (eq_ℤ j k)) [
    | inl y ↦ absurd (ground arith)
    | inr n ↦ rw (n) (find_level-insert k v before after (rw (n) at h))
  ]

-- The orders of a side that stand at a price, the first one first.
abbrev pub queue_at : ℤ → List (ℤ × List OrderBookEntry) → List OrderBookEntry
queue_at k l = queue_or_empty (find_level k l)

module _ {F : Float64} (L : SkipList (List OrderBookEntry) (Comparable F)) where
  pub enqueue_lem :
      (book : L.Levels) (order : OrderBookEntry) (qty : QuantityInNano)
      → queue_at order.price (L.view (enqueue L book order qty))
        ≡ queue_at order.price (L.view book)
          ++ record order { quantity = qty; filled_qty = pos 0 } ∷ []
  unfolding enqueue
  enqueue_lem book order qty = elim (Option-cases (find_level order.price (L.view book))) [
    | inl e ↦
        let got : L.get order.price book ≡ none = L.get-view order.price book ∙ e in
        let v = record order { quantity = qty; filled_qty = pos 0 } ∷ [] in
        let (before, after, was, now) = L.view-set_new order.price v book e in
        rw (got, enqueue)
          (rw (now, e, find_level-insert order.price v before after (rw was at e)) refl)
    | inr (w, e) ↦
        let got : L.get order.price book ≡ some w = L.get-view order.price book ∙ e in
        let there : find_level order.price (L.view book) ≢ none = λ n. cc (sym e ∙ n) in
        let v = w ++ record order { quantity = qty; filled_qty = pos 0 } ∷ [] in
        rw (got, enqueue)
          (rw
            (
              L.view-set order.price v book there,
              find_level-put_level order.price v (L.view book) there,
              e,
            )
            refl)
  ]
