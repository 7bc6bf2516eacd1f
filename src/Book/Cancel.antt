-- ===== src/Book/Cancel.antt =====
-- `CancelOrder` of biz/service/orderbook.go, on the books that orders and cancellations lead to.
use cex_hertz_backend.Base.{
  ℕ, ℤ, pos, String, str_eq, str_eq_refl, none, some, List, ◌≡◌, ◌≢◌, ◌↔◌, inl, inr, arith, lookup,
  insert, lookup-insert, lookup-erase, Option-cases, Bool-cases,
}
use cex_hertz_backend.Events.Types.{TradeExecutedEvent}
use cex_hertz_backend.Sequencer.{Sequencer}
use cex_hertz_backend.Book.Levels.{SkipList}
use cex_hertz_backend.Book.Types.{OrderBookEntry, Float64, Comparable, OrderBook, new_order_book}
use cex_hertz_backend.Book.Orders.{
  match_order, match_buy_order, match_sell_order, settle, add_order_to_book, cancel_order,
  cancel_found,
}

module _ {F : Float64} (L : SkipList (List OrderBookEntry) (Comparable F)) where
  -- The books of one symbol: each order comes with nothing filled, as `processOrder` of
  -- biz/service/match_engine.go makes it.
  pub data Reached : OrderBook F L → Type 0 where
    fresh : (symbol : String) (s : Sequencer) → Reached (new_order_book F L symbol s)
    matched :
        {ob ob' : OrderBook F L} (now : ℕ → ℤ) (order : OrderBookEntry)
        {es : List TradeExecutedEvent} {rest : ℤ}
        → Reached ob
        → order.filled_qty ≡ pos 0
        → match_order L now ob order ≡ some (ob', es, rest)
        → Reached ob'
    cancelled : {ob : OrderBook F L} (id : String) → Reached ob → Reached (cancel_order L ob id).0

  settle-orders :
      (ob : OrderBook F L) (order : OrderBookEntry) (rest : ℤ)
      → (settle L ob order rest).orders ≡ insert order.order_id order ob.orders
  unfolding settle add_order_to_book
  settle-orders ob order rest = ground arith

  match_order-orders :
      (now : ℕ → ℤ) (ob ob' : OrderBook F L) (order : OrderBookEntry) {es : List TradeExecutedEvent}
      {rest : ℤ}
      → match_order L now ob order ≡ some (ob', es, rest)
      → ob'.orders ≡ insert order.order_id order ob.orders
  unfolding match_order
  match_order-orders now ob ob' order e = elim (Bool-cases (str_eq order.side "buy")) [
    | inl b ↦ elim (Option-cases (match_buy_order L now ob order)) [
      | inl stuck ↦ absurd (ground arith)
      | inr (p, run) ↦
          let ob₁ : OrderBook F L = record ob { sells = p.levels; sequencer = p.sequencer } in
          ground (arith, settle-orders ob₁ order p.remaining_qty)
    ]
    | inr b ↦ elim (Option-cases (match_sell_order L now ob order)) [
      | inl stuck ↦ absurd (ground arith)
      | inr (p, run) ↦
          let ob₁ : OrderBook F L = record ob { buys = p.levels; sequencer = p.sequencer } in
          ground (arith, settle-orders ob₁ order p.remaining_qty)
    ]
  ]

  -- No recorded order has a filled quantity.
  abbrev NoFills : OrderBook F L → Type 0
  NoFills ob =
      (id : String) (e : OrderBookEntry) → lookup id ob.orders ≡ some e → e.filled_qty ≡ pos 0

  cancel_order-orders :
      (ob : OrderBook F L) (id j : String) (e : OrderBookEntry)
      → lookup j (cancel_order L ob id).0.orders ≡ some e
      → lookup j ob.orders ≡ some e
  unfolding cancel_order cancel_found
  cancel_order-orders ob id j e h = ground (arith, lookup-erase id j ob.orders)

  Reached-NoFills : {ob : OrderBook F L} → Reached ob → NoFills ob
  Reached-NoFills (fresh symbol s) id e h = unfold new_order_book lookup in cc
  Reached-NoFills (matched {ob} {ob'} now order r f m) id e h =
      let h' =
        rw (match_order-orders now ob ob' order m, lookup-insert order.order_id id order ob.orders)
          at h in
      ground (arith, Reached-NoFills r id e)
  Reached-NoFills (cancelled {ob} id r) j e h =
      Reached-NoFills r j e (cancel_order-orders ob id j e h)

  -- On a book that orders with nothing filled and cancellations make of a new one, a cancellation
  -- succeeds exactly for the orders that are recorded, whatever trades they have had: the test of the
  -- filled quantity never refuses one. Afterwards the id is not recorded.
  pub cancel_order-Reached :
      {ob : OrderBook F L} (id : String)
      → Reached ob
      → (((cancel_order L ob id).1 ≡ none) ↔ (lookup id ob.orders ≢ none))
        × (lookup id (cancel_order L ob id).0.orders ≡ none)
  unfolding cancel_order cancel_found
  cancel_order-Reached {ob} id r = elim (Option-cases (lookup id ob.orders)) [
    | inl e ↦ ground arith
    | inr (order, e) ↦
        ground (arith, Reached-NoFills r id order e, lookup-erase id id ob.orders, str_eq_refl id)
  ]
