-- ===== src/Engine/Match.antt =====
-- `processOrder`, `matchWorker` and the notices of biz/service/match_engine.go. `none` is a panic, or a
-- loop that would not end.
use cex_hertz_backend.Base.{
  ℕ, pos, String, str_eq, Bool, true, false, ◌&&◌, Option, none, some, List, [], ◌∷◌, ◌++◌, lookup,
  lookup_or, insert, ltb_ℤ, eq_ℤ, if◌then◌else◌,
}
use cex_hertz_backend.Events.Types.{QuantityInNano, TradeExecutedEvent, executed}
use cex_hertz_backend.EventLog.Envelope.{Json}
use cex_hertz_backend.EventLog.Store.{EventStore}
use cex_hertz_backend.Sequencer.{next_global_seq}
use cex_hertz_backend.Book.Levels.{SkipList}
use cex_hertz_backend.Book.Types.{OrderBookEntry, Float64, Comparable, OrderBook}
use cex_hertz_backend.Book.Orders.{match_order}
use cex_hertz_backend.Pipeline.Rows.{CheckpointDb}
use cex_hertz_backend.Pipeline.Process.{Result, process_event}
use cex_hertz_backend.Engine.Types.{
  SubmitOrderMsg, Notice, broadcast, unicast, trade_message, filled_message, pending_message,
  Outside, MatchEngine,
}

-- A user that is not named gets nothing.
abbrev to_user : String → TradeExecutedEvent → List Notice
to_user user trade = if str_eq user "" then [] else unicast user (trade_message trade) ∷ []

abbrev pub book_entry : {W : Type 0} → Outside W → String → SubmitOrderMsg → ℕ → OrderBookEntry
book_entry env symbol order n = record {
  order_id = order.order_id;
  user_id = order.user_id;
  symbol = symbol;
  side = order.side;
  price = env.parse_price order.price;
  quantity = env.parse_quantity order.quantity;
  filled_qty = pos 0;
  submit_time = env.now;
  sequence_num = n;
}

abbrev nonempty : List TradeExecutedEvent → Bool
nonempty [] = false
nonempty (e ∷ es) = true

module _ {J : Json} (S : EventStore J) (D : CheckpointDb) (W : Type 0) {F : Float64}
    (L : SkipList (List OrderBookEntry) (Comparable F)) where
  -- What is sent of a trade. A nil function for users panics when a user is named.
  unfoldable pub broadcast_trade :
      MatchEngine S D W L → TradeExecutedEvent → Option (MatchEngine S D W L)
  broadcast_trade me trade =
      let users = to_user trade.maker_user trade ++ to_user trade.taker_user trade in
      let all = users ++ broadcast trade.symbol_str (trade_message trade) ∷ [] in
      if me.has_broadcaster
      then (if me.has_unicaster
          then some (record me { notices = all ++ me.notices })
          else if str_eq trade.taker_user "" && str_eq trade.maker_user ""
          then some (record me { notices = all ++ me.notices })
          else none)
      else some me

  unfoldable pub notify_order_filled :
      Outside W → MatchEngine S D W L → SubmitOrderMsg → MatchEngine S D W L
  notify_order_filled env me order =
      if me.has_unicaster
      then record me {
        notices = unicast order.user_id (filled_message order.order_id env.now) ∷ me.notices;
      }
      else me

  unfoldable pub notify_order_pending :
      Outside W → MatchEngine S D W L → SubmitOrderMsg → QuantityInNano → MatchEngine S D W L
  notify_order_pending env me order remaining =
      if me.has_unicaster
      then record me {
        notices =
            unicast order.user_id (pending_message order.order_id remaining env.now) ∷ me.notices;
      }
      else me

  abbrev recorded :
      MatchEngine S D W L → TradeExecutedEvent → Result S D W → Option (MatchEngine S D W L)
  recorded me trade none = none
  recorded me trade (some (ep, w, error)) =
      broadcast_trade (record me { event_pipeline = ep; world = w }) trade

  -- The loop over the trades: an error of the pipeline is logged.
  unfoldable pub record_trades :
      Outside W → MatchEngine S D W L → List TradeExecutedEvent → Option (MatchEngine S D W L)
  unfolding broadcast_trade
  record_trades env me [] = some me
  record_trades env me (e ∷ es) =
      elim (recorded me e
        (process_event S D W env.turn me.event_pipeline me.world (some (executed e)))) [
          | none ↦ none
          | some me' ↦ record_trades env me' es
        ]

  abbrev pub notified :
      Outside W
      → SubmitOrderMsg
      → List TradeExecutedEvent
      → QuantityInNano
      → MatchEngine S D W L
      → MatchEngine S D W L
  notified env order es remaining me =
      if eq_ℤ remaining (pos 0) && nonempty es
      then notify_order_filled env me order
      else if ltb_ℤ (pos 0) remaining
      then notify_order_pending env me order remaining
      else me

  abbrev pub matched :
      Outside W
      → MatchEngine S D W L
      → String
      → SubmitOrderMsg
      → Option (OrderBook F L × List TradeExecutedEvent × QuantityInNano)
      → Option (MatchEngine S D W L)
  matched env me symbol order none = none
  matched env me symbol order (some (ob, es, remaining)) =
      elim (record_trades env
        (record me { order_books = insert symbol ob me.order_books; sequencer = ob.sequencer })
        es) [ none ↦ none | some me' ↦ some (notified env order es remaining me') ]

  unfoldable pub process_order :
      Outside W
      → MatchEngine S D W L
      → String
      → OrderBook F L
      → SubmitOrderMsg
      → Option (MatchEngine S D W L)
  unfolding record_trades
  process_order env me symbol ob order =
      let drawn = next_global_seq me.sequencer in
      matched env (record me { sequencer = drawn.0 }) symbol order
        (match_order L env.trade_times (record ob { sequencer = drawn.0 })
          (book_entry env symbol order drawn.1))

  abbrev taken :
      Outside W
      → MatchEngine S D W L
      → String
      → List SubmitOrderMsg
      → Option (OrderBook F L)
      → Option (MatchEngine S D W L)
  taken env me symbol [] book = some me
  taken env me symbol (order ∷ rest) none = some me
  taken env me symbol (order ∷ rest) (some ob) =
      process_order env (record me { order_queues = insert symbol rest me.order_queues }) symbol ob
        order

  -- One turn of the worker of a symbol: the order at the front of its queue, if there is one. A
  -- symbol without a book has no worker.
  unfoldable pub match_worker_turn :
      Outside W → MatchEngine S D W L → String → Option (MatchEngine S D W L)
  unfolding process_order
  match_worker_turn env me symbol =
      taken env me symbol (lookup_or [] symbol me.order_queues) (lookup symbol me.order_books)
