-- ===== src/Engine/Submit.antt =====
-- `SubmitOrder` and `enqueueOrder` of biz/service/match_engine.go.
use Prim.Native.String.{◌++◌}
use cex_hertz_backend.Base.{
  ℕ, String, str_eq, ◌||◌, Option, none, some, List, [], ◌∷◌, lookup, lookup_or, insert, length,
  ltb, decimal, if◌then◌else◌,
}
use cex_hertz_backend.Events.Types.{OrderSubmittedEvent, submitted}
use cex_hertz_backend.EventLog.Envelope.{Json}
use cex_hertz_backend.EventLog.Store.{EventStore}
use cex_hertz_backend.Sequencer.{Sequencer, next_global_seq}
use cex_hertz_backend.Book.Levels.{SkipList}
use cex_hertz_backend.Book.Types.{OrderBookEntry, Float64, Comparable, OrderBook, new_order_book}
use cex_hertz_backend.Pipeline.Rows.{CheckpointDb}
use cex_hertz_backend.Pipeline.Process.{Result, process_event}
use cex_hertz_backend.Engine.Types.{
  SubmitOrderMsg, SubmitError, missing_fields, not_processed, Outside, MatchEngine,
}

-- The order with an id, which is drawn when it has none.
unfoldable pub with_order_id : String → Sequencer → SubmitOrderMsg → Sequencer × SubmitOrderMsg
with_order_id nanos s order =
    let drawn = next_global_seq s in
    if str_eq order.order_id ""
    then (drawn.0, record order { order_id = "ord-" ++ (nanos ++ ("-" ++ decimal drawn.1)) })
    else (s, order)

abbrev pub submitted_event : {W : Type 0} → Outside W → ℕ → SubmitOrderMsg → OrderSubmittedEvent
submitted_event env n order = record {
  seq = n;
  timestamp = env.now;
  order_id = order.order_id;
  user_id = order.user_id;
  symbol_str = order.symbol;
  side = order.side;
  price = env.parse_price order.price;
  quantity = env.parse_quantity order.quantity;
  status = "submitted";
}

-- The items of a queue behind one that is sent: a channel holds 10000. `none` waits.
unfoldable pub send : List SubmitOrderMsg → SubmitOrderMsg → Option (List SubmitOrderMsg)
send queue order = if ltb (length queue) 10000 then some (join queue (order ∷ [])) else none
  where
    join : List SubmitOrderMsg → List SubmitOrderMsg → List SubmitOrderMsg
    join [] ys = ys
    join (x ∷ xs) ys = x ∷ join xs ys

module _ {F : Float64} (L : SkipList (List OrderBookEntry) (Comparable F)) where
  abbrev pub book_or_new : String → Sequencer → Option (OrderBook F L) → OrderBook F L
  book_or_new symbol s none = new_order_book F L symbol s
  book_or_new symbol s (some ob) = ob

module _ {J : Json} (S : EventStore J) (D : CheckpointDb) (W : Type 0) {F : Float64}
    (L : SkipList (List OrderBookEntry) (Comparable F)) where
  -- How a call of the engine ends. A call that waits for room in a queue has not ended.
  pub data Submitted : Type 0 where
    panicked waits : Submitted
    ended : MatchEngine S D W L → Option SubmitError → Submitted

  abbrev sent : MatchEngine S D W L → String → Option (List SubmitOrderMsg) → Submitted
  sent me symbol none = waits
  sent me symbol (some queue) =
      ended (record me { order_queues = insert symbol queue me.order_queues }) none

  -- The queue and the book of the symbol are there behind the call.
  unfoldable pub enqueue_order : Outside W → MatchEngine S D W L → SubmitOrderMsg → Submitted
  unfolding send
  enqueue_order env me order =
      let queue = lookup_or [] order.symbol me.order_queues in
      let me' : MatchEngine S D W L = record me {
        order_queues = insert order.symbol queue me.order_queues;
        order_books =
            insert order.symbol
              (book_or_new L order.symbol me.sequencer (lookup order.symbol me.order_books))
              me.order_books;
      } in
      if env.shutting_down then ended me' none else sent me' order.symbol (send queue order)

  abbrev pub submitted_to :
      Outside W → MatchEngine S D W L → SubmitOrderMsg → Result S D W → Submitted
  submitted_to env me order none = panicked
  submitted_to env me order (some (ep, w, some error)) =
      ended (record me { event_pipeline = ep; world = w }) (some (not_processed error))
  submitted_to env me order (some (ep, w, none)) =
      enqueue_order env (record me { event_pipeline = ep; world = w }) order

  unfoldable pub submit_order : Outside W → MatchEngine S D W L → SubmitOrderMsg → Submitted
  unfolding enqueue_order with_order_id
  submit_order env me order =
      let named = with_order_id env.nanos me.sequencer order in
      let drawn = next_global_seq named.0 in
      let me' : MatchEngine S D W L = record me { sequencer = drawn.0 } in
      if str_eq order.symbol "" || str_eq order.side "" || str_eq order.user_id ""
      then ended me (some missing_fields)
      else submitted_to env me' named.1 (
          process_event S D W env.turn me'.event_pipeline me'.world
            (some (submitted (submitted_event env drawn.1 named.1))))
