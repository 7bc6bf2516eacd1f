-- ===== src/Engine/Turns.antt =====
-- When a turn of the worker of biz/service/match_engine.go panics in an engine whose pipeline has a
-- manager of checkpoints.
use cex_hertz_backend.Base.{
  ℕ, ℤ, String, str_eq, str_eq_iff, true, none, some, List, [], ◌∷◌, ◌≡◌, ◌≢◌, ◌↔◌, refl, sym, ◌∙◌,
  arith, lookup, lookup_or, insert, Bool-cases, Option-cases, inl, inr,
}
use cex_hertz_backend.Events.Types.{TradeExecutedEvent, executed, QuantityInNano}
use cex_hertz_backend.EventLog.Envelope.{Json}
use cex_hertz_backend.EventLog.Store.{EventStore}
use cex_hertz_backend.Pipeline.Rows.{CheckpointDb}
use cex_hertz_backend.Pipeline.Process.{process_event}
use cex_hertz_backend.Pipeline.Crash.{process_event_panics_iff}
use cex_hertz_backend.Book.Levels.{SkipList}
use cex_hertz_backend.Book.Types.{OrderBookEntry, Float64, Comparable, OrderBook}
use cex_hertz_backend.Sequencer.{next_global_seq}
use cex_hertz_backend.Book.Orders.{match_order}
use cex_hertz_backend.Book.Stock.{IsQuantity}
use cex_hertz_backend.Book.Settled.{IsBook, match_order-Settled_buy, match_order-Settled_sell}
use cex_hertz_backend.Engine.Match.{
  broadcast_trade, record_trades, process_order, match_worker_turn, matched, book_entry,
}
use cex_hertz_backend.Engine.Types.{SubmitOrderMsg, Outside, MatchEngine}
use cex_hertz_backend.Engine.Falling.{
  Managed, process_event-Managed, Falling, falls_now, falls_later, Falling-at, Falling-later,
}

module _ {F : Float64} (L : SkipList (List OrderBookEntry) (Comparable F)) where
  match_order_ends :
      (now : ℕ → ℤ) (ob : OrderBook F L) (order : OrderBookEntry)
      → IsBook L ob
      → IsQuantity order.quantity
      → (ob' : OrderBook F L) × (es : List TradeExecutedEvent) × (rest : QuantityInNano)
        × (match_order L now ob order ≡ some (ob', es, rest))
  match_order_ends now ob order b q = elim (Bool-cases (str_eq order.side "buy")) [
    | inl y ↦
        let (ob', es, rest, run, settled) =
          match_order-Settled_buy L now ob order ((str_eq_iff order.side "buy").0 y) b q in
        (ob', es, rest, run)
    | inr n ↦
        let (ob', es, rest, run, settled) =
          match_order-Settled_sell L now ob order (ground (arith, str_eq_iff order.side "buy")) b
            q in
        (ob', es, rest, run)
  ]

module _ {J : Json} {S : EventStore J} {D : CheckpointDb} {W : Type 0} {F : Float64}
    (L : SkipList (List OrderBookEntry) (Comparable F)) where
  broadcast_trade_kept :
      (me : MatchEngine S D W L) (e : TradeExecutedEvent)
      → me.has_unicaster ≡ true
      → (me' : MatchEngine S D W L) × (broadcast_trade S D W L me e ≡ some me')
        × (me'.has_unicaster ≡ true)
        × (me'.event_pipeline ≡ me.event_pipeline)
        × (me'.world ≡ me.world)
  unfolding broadcast_trade
  broadcast_trade_kept me e u = elim (Bool-cases me.has_broadcaster) [
    | inl y ↦ simp (broadcast_trade, y, u) (_, refl, refl, refl, refl)
    | inr n ↦ simp (broadcast_trade, n) (_, refl, u, refl, refl)
  ]

  record_trades_panics_iff :
      (env : Outside W) (me : MatchEngine S D W L) (es : List TradeExecutedEvent)
      → me.has_unicaster ≡ true
      → Managed me.event_pipeline
      → (record_trades S D W L env me es ≡ none) ↔ Falling env.turn me.event_pipeline me.world es
  unfolding record_trades
  record_trades_panics_iff env me [] u m = (λ h. absurd (cc), λ f. elim f [ ])
  record_trades_panics_iff env me (e ∷ es) u m =
      elim (Option-cases me.event_pipeline.checkpoint_mgr) [
        | inl n ↦ absurd (m n)
        | inr (cm, c) ↦
            let falls =
              process_event_panics_iff env.turn me.event_pipeline me.world (executed e) cm c in
            elim (Option-cases
              (process_event S D W env.turn me.event_pipeline me.world (some (executed e)))) [
                | inl n ↦
                    rw (record_trades, n) (λ h. falls_now (falls.0 n).0 (falls.0 n).1, λ f. refl)
                | inr ((ep, w, error), run) ↦
                    let me₁ : MatchEngine S D W L = record me { event_pipeline = ep; world = w } in
                    let (me₂, sent, u₂, p₂, w₂) = broadcast_trade_kept me₁ e u in
                    let m₂ : Managed me₂.event_pipeline = rw p₂ (
                      process_event-Managed env.turn me.event_pipeline ep me.world w (executed e)
                        error m run) in
                    let rest = record_trades_panics_iff env me₂ es u₂ m₂ in
                    let same : record_trades S D W L env me (e ∷ es)
                        ≡ record_trades S D W L env me₂ es =
                      rw (record_trades, run, sent) refl in
                    (
                      λ h. falls_later run (Falling-at p₂ w₂ (rest.0 (sym same ∙ h))),
                      λ f.
                          let behind = Falling-later (λ a b. falls.1 (a, b)) run f in
                          same ∙ rest.1 (Falling-at (sym p₂) (sym w₂) behind),
                    )
              ]
      ]

  -- Of an engine whose pipeline has a manager of checkpoints and which has a function to reach users:
  -- with an order at the front of the queue of a symbol whose book is well formed, and a quantity that
  -- is not negative, the matching ends, and the turn of the symbol's worker panics exactly when one of
  -- the trades falls; without a trade, or with none that falls, the turn ends.
  pub match_worker_turn_panics_iff :
      (env : Outside W) (me : MatchEngine S D W L) (name : String) (order : SubmitOrderMsg)
      (queue : List SubmitOrderMsg) (ob : OrderBook F L)
      → lookup_or [] name me.order_queues ≡ order ∷ queue
      → lookup name me.order_books ≡ some ob
      → IsBook L ob
      → IsQuantity (env.parse_quantity order.quantity)
      → me.has_unicaster ≡ true
      → me.event_pipeline.checkpoint_mgr ≢ none
      → let drawn = next_global_seq me.sequencer in
        (ob' : OrderBook F L) × (es : List TradeExecutedEvent) × (rest : QuantityInNano)
        × (match_order L env.trade_times
              (record ob { sequencer = drawn.0 })
              (book_entry env name order drawn.1)
            ≡ some (ob', es, rest))
        × ((match_worker_turn S D W L env me name ≡ none)
            ↔ Falling env.turn me.event_pipeline me.world es)
  unfolding match_worker_turn process_order
  match_worker_turn_panics_iff env me name order queue ob q f b n u m =
      let drawn = next_global_seq me.sequencer in
      let entry = book_entry env name order drawn.1 in
      let ob₁ : OrderBook F L = record ob { sequencer = drawn.0 } in
      let (ob₂, es, rest, run) = match_order_ends L env.trade_times ob₁ entry b n in
      let me₁ : MatchEngine S D W L = record me {
        order_queues = insert name queue me.order_queues;
        order_books = insert name ob₂ me.order_books;
        sequencer = ob₂.sequencer;
      } in
      let falls = record_trades_panics_iff env me₁ es u m in
      (
        ob₂,
        es,
        rest,
        run,
        elim (Option-cases (record_trades S D W L env me₁ es)) [
          | inl x ↦
              rw (match_worker_turn, q, f, process_order, run, matched, x)
                (λ h. falls.0 x, λ h. refl)
          | inr (me₂, x) ↦
              rw (match_worker_turn, q, f, process_order, run, matched, x)
                (λ h. absurd (cc), λ h. absurd (clash (sym (falls.1 h) ∙ x)))
        ],
      )
    where
      clash : {A : Type 0} {x : A} → none ≢ some x
      clash q = cc
