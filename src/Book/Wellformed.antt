-- ===== src/Book/Wellformed.antt =====
-- The books of biz/service/orderbook.go that orders and cancellations lead to.
use mathlib.Core.Path.{subst}
use cex_hertz_backend.Base.{
  ℕ, ℤ, pos, String, str_eq, str_eq_iff, Bool, some, List, [], ◌∷◌, ◌≡◌, ◌≢◌, sym, ◌∙◌, arith, All,
  keep, lookup, Option-cases, Bool-cases, inl, inr, eq_ℤ, ltb_ℤ, ◌+◌, pos_part,
}
use cex_hertz_backend.Events.Types.{TradeExecutedEvent}
use cex_hertz_backend.Sequencer.{Sequencer}
use cex_hertz_backend.Book.Levels.{SkipList, find_level, put_level, delete_level}
use cex_hertz_backend.Book.Types.{
  OrderBookEntry, Float64, Comparable, OrderBook, new_order_book, price_comparator_desc,
  price_comparator_asc,
}
use cex_hertz_backend.Book.Orders.{
  match_order, cancel_order, cancel_found, take_out, others, replace_queue,
}
use cex_hertz_backend.Book.Stock.{IsLive, IsQuantity, IsStocked, traded}
use cex_hertz_backend.Book.Settled.{IsBook, match_order-Settled_buy, match_order-Settled_sell}

delete_level-IsStocked :
    (k : ℤ) (l : List (ℤ × List OrderBookEntry)) → IsStocked l → IsStocked (delete_level k l)
delete_level-IsStocked k [] s = tt
delete_level-IsStocked k ((j, q) ∷ l) s = elim (Bool-cases (eq_ℤ j k)) [
  | inl y ↦ rw (y) s.1
  | inr n ↦ rw (n) (s.0, delete_level-IsStocked k l s.1)
]

put_level-IsStocked :
    (k : ℤ) (q : List OrderBookEntry) (l : List (ℤ × List OrderBookEntry))
    → q ≢ []
    → All IsLive q
    → IsStocked l
    → IsStocked (put_level k q l)
put_level-IsStocked k q [] n a s = tt
put_level-IsStocked k q ((j, w) ∷ l) n a s = elim (Bool-cases (eq_ℤ j k)) [
  | inl y ↦ rw (y) ((n, a), s.1)
  | inr o ↦ rw (o) (s.0, put_level-IsStocked k q l n a s.1)
]

find_level-IsLive :
    (k : ℤ) (q : List OrderBookEntry) (l : List (ℤ × List OrderBookEntry))
    → find_level k l ≡ some q
    → IsStocked l
    → All IsLive q
find_level-IsLive k q [] e s = absurd (ground arith)
find_level-IsLive k q ((j, w) ∷ l) e s = elim (Bool-cases (eq_ℤ j k)) [
  | inl y ↦ let same : w ≡ q = ground arith in rw (sym same) s.0.1
  | inr n ↦ find_level-IsLive k q l (rw n at e) s.1
]

keep-IsLive :
    (p : OrderBookEntry → Bool) (q : List OrderBookEntry) → All IsLive q → All IsLive (keep p q)
keep-IsLive p [] a = tt
keep-IsLive p (e ∷ q) a = elim (Bool-cases (p e)) [
  | inl y ↦ rw (y) (a.0, keep-IsLive p q a.1)
  | inr n ↦ rw (n) (keep-IsLive p q a.1)
]

module _ {F : Float64} (L : SkipList (List OrderBookEntry) (Comparable F)) where
  -- The books of one symbol, for orders whose quantities are not negative.
  pub data Traded : OrderBook F L → Type 0 where
    opened : (symbol : String) (s : Sequencer) → Traded (new_order_book F L symbol s)
    ordered :
        {ob ob' : OrderBook F L} (now : ℕ → ℤ) (order : OrderBookEntry)
        {es : List TradeExecutedEvent} {rest : ℤ}
        → Traded ob
        → IsQuantity order.quantity
        → match_order L now ob order ≡ some (ob', es, rest)
        → Traded ob'
    withdrawn : {ob : OrderBook F L} (id : String) → Traded ob → Traded (cancel_order L ob id).0

  replace_queue-IsStocked :
      (book : L.Levels) (price : ℤ) (q r : List OrderBookEntry)
      → find_level price (L.view book) ≡ some q
      → All IsLive r
      → IsStocked (L.view book)
      → IsStocked (L.view (replace_queue L book price r))
  replace_queue-IsStocked book price q [] here a s =
      rw (L.view-remove price book) (delete_level-IsStocked price (L.view book) s)
  replace_queue-IsStocked book price q (x ∷ r) here a s =
      rw (L.view-set price (x ∷ r) book (λ n. let clash = sym here ∙ n in cc))
        (put_level-IsStocked price (x ∷ r) (L.view book) (λ n. cc) a s)

  take_out-IsStocked :
      (book : L.Levels) (price : ℤ) (id : String)
      → IsStocked (L.view book)
      → IsStocked (L.view (take_out L book price id))
  unfolding take_out
  take_out-IsStocked book price id s = elim (Option-cases (L.get price book)) [
    | inl n ↦ rw (take_out, n) s
    | inr (q, f) ↦
        let here = sym (L.get-view price book) ∙ f in
        rw (take_out, f)
          (replace_queue-IsStocked book price q (others L id q) here
            (keep-IsLive _ q (find_level-IsLive price q _ here s)) s)
  ]

  cancel_order-IsBook :
      (ob : OrderBook F L) (id : String) → IsBook L ob → IsBook L (cancel_order L ob id).0
  unfolding cancel_order cancel_found
  cancel_order-IsBook ob id b = elim (Option-cases (lookup id ob.orders)) [
    | inl n ↦ rw (cancel_order, n) b
    | inr (order, f) ↦ elim (Bool-cases (ltb_ℤ (pos 0) order.filled_qty)) [
      | inl y ↦ rw (cancel_order, f, y) b
      | inr n ↦ elim (Bool-cases (str_eq order.side "buy")) [
        | inl buy ↦
            rw (cancel_order, f, n, cancel_found, buy)
              (take_out-IsStocked ob.buys order.price id b.0, b.1)
        | inr sell ↦
            rw (cancel_order, f, n, cancel_found, sell)
              (b.0, take_out-IsStocked ob.sells order.price id b.1)
      ]
    ]
  ]

  match_order-IsBook :
      (now : ℕ → ℤ) (ob ob' : OrderBook F L) (order : OrderBookEntry) {es : List TradeExecutedEvent}
      {rest : ℤ}
      → IsBook L ob
      → IsQuantity order.quantity
      → match_order L now ob order ≡ some (ob', es, rest)
      → IsBook L ob'
  match_order-IsBook now ob ob' order b q m = elim (Bool-cases (str_eq order.side "buy")) [
    | inl y ↦
        let (ob₁, es₁, rest₁, run, settled) =
          match_order-Settled_buy L now ob order ((str_eq_iff order.side "buy").0 y) b q in
        let same : ob₁ ≡ ob' = ground arith in subst (λ t. IsBook L t) same settled.is_book
    | inr n ↦
        let (ob₁, es₁, rest₁, run, settled) =
          match_order-Settled_sell L now ob order (ground (arith, str_eq_iff order.side "buy")) b
            q in
        let same : ob₁ ≡ ob' = ground arith in subst (λ t. IsBook L t) same settled.is_book
  ]

  pub Traded-IsBook : {ob : OrderBook F L} → Traded ob → IsBook L ob
  Traded-IsBook (opened symbol s) =
      unfold new_order_book in
      (rw (L.view-new (price_comparator_desc F)) tt, rw (L.view-new (price_comparator_asc F)) tt)
  Traded-IsBook (ordered {ob} {ob'} now order t q m) =
      match_order-IsBook now ob ob' order (Traded-IsBook t) q m
  Traded-IsBook (withdrawn {ob} id t) = cancel_order-IsBook ob id (Traded-IsBook t)

  -- On every book that orders with quantities that are not negative, and cancellations, make of a new
  -- one, no level is empty and each entry is open; and a further such order is matched: the loop ends,
  -- what is traded and what is left make up its quantity, and the book is again one of these.
  pub Traded-match_order :
      {ob : OrderBook F L} (now : ℕ → ℤ) (order : OrderBookEntry)
      → Traded ob
      → IsQuantity order.quantity
      → IsBook L ob
        × (ob' : OrderBook F L) × (es : List TradeExecutedEvent) × (rest : ℤ) × (match_order L now
              ob order
            ≡ some (ob', es, rest))
        × (pos_part rest + traded es ≡ pos_part order.quantity)
        × Traded ob'
  Traded-match_order {ob} now order t q = elim (Bool-cases (str_eq order.side "buy")) [
    | inl y ↦
        let (ob', es, rest, run, settled) =
          match_order-Settled_buy L now ob order ((str_eq_iff order.side "buy").0 y)
            (Traded-IsBook t) q in
        (Traded-IsBook t, ob', es, rest, run, settled.spent, ordered now order t q run)
    | inr n ↦
        let (ob', es, rest, run, settled) =
          match_order-Settled_sell L now ob order (ground (arith, str_eq_iff order.side "buy"))
            (Traded-IsBook t) q in
        (Traded-IsBook t, ob', es, rest, run, settled.spent, ordered now order t q run)
  ]
