-- ===== src/Book/Settled.antt =====
-- `MatchOrder` of biz/service/orderbook.go as a whole.
use cex_hertz_backend.Base.{
  ℕ, suc, ◌+◌, ℤ, pos, pos_part, str_eq, str_eq_refl, str_eq_iff, true, false, some, List, [], ◌∷◌,
  ◌++◌, ◌≡◌, ◌≢◌, ◌⊎◌, inl, inr, refl, arith, All, length, take, lookup, lookup-insert, ltb_ℤ,
  if◌then◌else◌,
}
use cex_hertz_backend.Events.Types.{TradeExecutedEvent}
use cex_hertz_backend.Book.Levels.{SkipList}
use cex_hertz_backend.Book.Types.{OrderBookEntry, Float64, Comparable, OrderBook}
use cex_hertz_backend.Book.Matching.{Taker, buyer, seller, Progress}
use cex_hertz_backend.Book.Orders.{
  order_count, match_order, match_buy_order, match_sell_order, match_against, settle,
  add_order_to_book,
}
use cex_hertz_backend.Book.Stock.{IsQuantity, IsStocked, open_levels, traded}
use cex_hertz_backend.Book.Trades.{IsFair, Uncrossed, maker_offers, level_offers}
use cex_hertz_backend.Book.Matched.{Matched, rank}
use cex_hertz_backend.Book.Loop.{zero_or_pos, match_loop-Matched}
use cex_hertz_backend.Book.Enqueue.{enqueue-IsStocked}
use cex_hertz_backend.Book.Queue.{queue_at, enqueue_lem}

module _ {F : Float64} (L : SkipList (List OrderBookEntry) (Comparable F)) where
  -- The side that an order trades with, and the side that it rests on.
  abbrev pub makers : Taker → OrderBook F L → List (ℤ × List OrderBookEntry)
  makers buyer ob = L.view ob.sells
  makers seller ob = L.view ob.buys

  abbrev pub own : Taker → OrderBook F L → List (ℤ × List OrderBookEntry)
  own buyer ob = L.view ob.buys
  own seller ob = L.view ob.sells

  abbrev pub taker_of : OrderBookEntry → Taker
  taker_of order = if str_eq order.side "buy" then buyer else seller

  -- A book whose levels are not empty and whose entries are open.
  abbrev pub IsBook : OrderBook F L → Type 0
  IsBook ob = IsStocked (L.view ob.buys) × IsStocked (L.view ob.sells)

  -- What `MatchOrder` does with an order: from `ob` to `ob'`, with the trades `es` and `rest` left.
  pub record Settled (taker : Taker) (ob : OrderBook F L) (order : OrderBookEntry)
      (ob' : OrderBook F L) (es : List TradeExecutedEvent) (rest : ℤ) : Type 0 where
    pub fair : All (IsFair taker ob.symbol order) es
    pub spent : pos_part rest + traded es ≡ pos_part order.quantity
    pub supplied : open_levels (makers taker ob') + traded es ≡ open_levels (makers taker ob)
    pub resting : open_levels (own taker ob') ≡ open_levels (own taker ob) + pos_part rest
    pub queued :
        ltb_ℤ (pos 0) rest ≡ true
        → queue_at order.price (own taker ob')
          ≡ queue_at order.price (own taker ob)
            ++ record order { quantity = rest; filled_qty = pos 0 } ∷ []
    pub served : maker_offers es ≡ take (length es) (level_offers (makers taker ob))
    pub is_book : IsBook ob'
    pub finished : (pos_part rest ≡ 0) ⊎ Uncrossed taker order.price (makers taker ob')
    pub recorded : lookup order.order_id ob'.orders ≡ some order

  abbrev start : OrderBook F L → L.Levels → OrderBookEntry → Progress L
  start ob levels order = record {
    levels = levels;
    remaining_qty = order.quantity;
    events = [];
    sequencer = ob.sequencer;
  }

  match_against-Matched :
      (taker : Taker) (now : ℕ → ℤ) (ob : OrderBook F L) (levels : L.Levels)
      (order : OrderBookEntry)
      → IsStocked (L.view levels)
      → IsQuantity order.quantity
      → (p : Progress L) × (match_against L taker now ob levels order ≡ some p)
        × Matched L taker now ob.symbol order (start ob levels order) p
  unfolding match_against rank
  match_against-Matched taker now ob levels order s q =
      match_loop-Matched L taker now ob.symbol order (suc (suc (order_count (L.view levels))))
        (start ob levels order) s q (omega arith)

  -- `MatchOrder` behind its loop.
  settle-buy :
      (ob : OrderBook F L) (order : OrderBookEntry) (rest : ℤ)
      → str_eq order.side "buy" ≡ true
      → IsQuantity rest
      → IsStocked (L.view ob.buys)
      → let ob' = settle L ob order rest in
        IsStocked (L.view ob'.buys)
        × (open_levels (L.view ob'.buys) ≡ open_levels (L.view ob.buys) + pos_part rest)
        × (ob'.sells ≡ ob.sells)
        × (ltb_ℤ (pos 0) rest ≡ true
            → queue_at order.price (L.view ob'.buys)
              ≡ queue_at order.price (L.view ob.buys)
                ++ record order { quantity = rest; filled_qty = pos 0 } ∷ [])
        × (lookup order.order_id ob'.orders ≡ some order)
  unfolding settle add_order_to_book
  settle-buy ob order rest side q s = elim (zero_or_pos (pos_part rest)) [
    | inl z ↦
        let no_rest : ltb_ℤ (pos 0) rest ≡ false = ground arith in
        rw (no_rest, lookup-insert, str_eq_refl order.order_id)
          (s, omega arith, refl, (λ h. absurd (cc)), refl)
    | inr r ↦
        let more : ltb_ℤ (pos 0) rest ≡ true = ground arith in
        let (st, op) = enqueue-IsStocked L ob.buys order rest q r s in
        rw (more, side, lookup-insert, str_eq_refl order.order_id)
          (st, op, refl, (λ h. enqueue_lem L ob.buys order rest), refl)
  ]

  settle-sell :
      (ob : OrderBook F L) (order : OrderBookEntry) (rest : ℤ)
      → str_eq order.side "buy" ≡ false
      → IsQuantity rest
      → IsStocked (L.view ob.sells)
      → let ob' = settle L ob order rest in
        IsStocked (L.view ob'.sells)
        × (open_levels (L.view ob'.sells) ≡ open_levels (L.view ob.sells) + pos_part rest)
        × (ob'.buys ≡ ob.buys)
        × (ltb_ℤ (pos 0) rest ≡ true
            → queue_at order.price (L.view ob'.sells)
              ≡ queue_at order.price (L.view ob.sells)
                ++ record order { quantity = rest; filled_qty = pos 0 } ∷ [])
        × (lookup order.order_id ob'.orders ≡ some order)
  unfolding settle add_order_to_book
  settle-sell ob order rest side q s = elim (zero_or_pos (pos_part rest)) [
    | inl z ↦
        let no_rest : ltb_ℤ (pos 0) rest ≡ false = ground arith in
        rw (no_rest, lookup-insert, str_eq_refl order.order_id)
          (s, omega arith, refl, (λ h. absurd (cc)), refl)
    | inr r ↦
        let more : ltb_ℤ (pos 0) rest ≡ true = ground arith in
        let (st, op) = enqueue-IsStocked L ob.sells order rest q r s in
        rw (more, side, lookup-insert, str_eq_refl order.order_id)
          (st, op, refl, (λ h. enqueue_lem L ob.sells order rest), refl)
  ]

  -- A buy order whose quantity is not negative, on a book in which no level is empty and each entry
  -- is open, is matched and settled: the loop ends; each trade is for the order and has
  -- a positive quantity, at a price that the order accepts; what is traded and what is left make up
  -- its quantity; the sell side gives what is traded, its orders in the order of its levels and
  -- queues and each at the price of its level; the buy side gains what is left, as one entry at the
  -- order's price behind the orders that stood there; the book stays such a book; an order that is not
  -- filled leaves no first sell level whose price it accepts; and the order is recorded under its id.
  -- Which level is the first one is up to the list: nothing is said of the order of the prices.
  pub match_order-Settled_buy :
      (now : ℕ → ℤ) (ob : OrderBook F L) (order : OrderBookEntry)
      → order.side ≡ "buy"
      → IsBook ob
      → IsQuantity order.quantity
      → (ob' : OrderBook F L) × (es : List TradeExecutedEvent) × (rest : ℤ) × (match_order L now ob
            order
          ≡ some (ob', es, rest))
        × Settled buyer ob order ob' es rest
  unfolding match_order match_buy_order
  match_order-Settled_buy now ob order side b q =
      let (p, run, m) = match_against-Matched buyer now ob ob.sells order b.1 q in
      let is_buy = (str_eq_iff order.side "buy").1 side in
      let ob₁ : OrderBook F L = record ob { sells = p.levels; sequencer = p.sequencer } in
      let (st, op, same, last, found) = settle-buy ob₁ order p.remaining_qty is_buy m.counted b.0 in
      (
        settle L ob₁ order p.remaining_qty,
        p.events,
        p.remaining_qty,
        rw (is_buy, run),
        record {
          fair = rw m.appended m.fair;
          spent = rw m.appended m.spent;
          supplied = rw (same, m.appended) m.supplied;
          resting = op;
          queued = last;
          served = rw m.appended m.served;
          is_book = (st, rw same m.stocked);
          finished = rw same m.finished;
          recorded = found;
        },
      )

  -- An order that is not a buy order is matched with the buy side and settled on the sell side, under
  -- the same conditions and with the same outcome, the sides exchanged.
  pub match_order-Settled_sell :
      (now : ℕ → ℤ) (ob : OrderBook F L) (order : OrderBookEntry)
      → order.side ≢ "buy"
      → IsBook ob
      → IsQuantity order.quantity
      → (ob' : OrderBook F L) × (es : List TradeExecutedEvent) × (rest : ℤ) × (match_order L now ob
            order
          ≡ some (ob', es, rest))
        × Settled seller ob order ob' es rest
  unfolding match_order match_sell_order
  match_order-Settled_sell now ob order side b q =
      let (p, run, m) = match_against-Matched seller now ob ob.buys order b.0 q in
      let is_buy : str_eq order.side "buy" ≡ false = ground (arith, str_eq_iff order.side "buy") in
      let ob₁ : OrderBook F L = record ob { buys = p.levels; sequencer = p.sequencer } in
      let (st, op, same, last, found) =
        settle-sell ob₁ order p.remaining_qty is_buy m.counted b.1 in
      (
        settle L ob₁ order p.remaining_qty,
        p.events,
        p.remaining_qty,
        rw (is_buy, run),
        record {
          fair = rw m.appended m.fair;
          spent = rw m.appended m.spent;
          supplied = rw (same, m.appended) m.supplied;
          resting = op;
          queued = last;
          served = rw m.appended m.served;
          is_book = (rw same m.stocked, st);
          finished = rw same m.finished;
          recorded = found;
        },
      )
