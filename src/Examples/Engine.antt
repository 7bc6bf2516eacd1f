-- ===== src/Examples/Engine.antt =====
-- The match engine at concrete inputs: one order of 4 at 101, against a book with an offer of 3.
use cex_hertz_backend.Base.{
  ℕ, ℤ, pos, true, false, Option, none, some, List, [], ◌∷◌, ◌≡◌, ◌≢◌, ◌↔◌, refl, arith, lookup,
  lookup_or,
}
use cex_hertz_backend.Events.Types.{submitted, TradeExecutedEvent}
use cex_hertz_backend.Sequencer.{new_sequencer, next_global_seq}
use cex_hertz_backend.EventLog.Log.{new_in_memory_event_log}
use cex_hertz_backend.Pipeline.Checkpoints.{CheckpointManager}
use cex_hertz_backend.Pipeline.Crash.{Falls}
use cex_hertz_backend.Engine.Types.{SubmitOrderMsg, Outside, MatchEngine}
use cex_hertz_backend.Engine.Submit.{panicked, submit_order, submitted_event, with_order_id}
use cex_hertz_backend.Engine.Intake.{submit_order_panics_iff}
use cex_hertz_backend.Engine.Match.{match_worker_turn, book_entry}
use cex_hertz_backend.Engine.Falling.{Falling}
use cex_hertz_backend.Engine.Turns.{match_worker_turn_panics_iff}
use cex_hertz_backend.Book.Types.{OrderBook}
use cex_hertz_backend.Book.Orders.{match_order}
use cex_hertz_backend.Examples.Book.{floats, skip_list, book, book-IsBook, clock_at}
use cex_hertz_backend.Examples.EventLog.{json}
use cex_hertz_backend.Examples.Pipeline.{db, store, turn, pipeline, counter, manager}

abbrev env : Outside ℕ
env = record {
  turn = turn;
  now = pos 1000;
  trade_times = clock_at;
  nanos = "1";
  parse_price = λ s. pos 101;
  parse_quantity = λ s. pos 4;
  shutting_down = false;
}

abbrev order : SubmitOrderMsg
order = record {
  order_id = "b-2";
  symbol = "BTCUSDT";
  side = "buy";
  price = "0.00000101";
  quantity = "0.00000004";
  user_id = "u-1";
}

abbrev engine : Option (CheckpointManager db) → MatchEngine store db ℕ skip_list
engine cm = record {
  order_queues = ("BTCUSDT", order ∷ []) ∷ [];
  order_books = ("BTCUSDT", book) ∷ [];
  event_pipeline = pipeline (counter "position") cm;
  sequencer = new_sequencer;
  world = 0;
  has_broadcaster = true;
  has_unicaster = true;
  notices = [];
}

submit_order_panics_iff_example :
    let drawn = next_global_seq new_sequencer in
    let e = submitted (submitted_event env drawn.1 order) in
    (submit_order store db ℕ skip_list env (engine (some manager)) order ≡ panicked) ↔ (
      (order.symbol ≢ "")
      × (order.side ≢ "")
      × (order.user_id ≢ "")
      × ((store.append (some e) (new_in_memory_event_log json)).1 ≡ true)
      × Falls (("position", []) ∷ []) e 0 (counter "position" ∷ []))
unfolding with_order_id
submit_order_panics_iff_example =
    submit_order_panics_iff skip_list env (engine (some manager)) order manager refl

front : lookup_or [] "BTCUSDT" (engine (some manager)).order_queues ≡ order ∷ []
unfolding lookup_or lookup
front = refl

its_book : lookup "BTCUSDT" (engine (some manager)).order_books ≡ some book
unfolding lookup
its_book = refl

match_worker_turn_panics_iff_example :
    let drawn = next_global_seq new_sequencer in
    (ob : OrderBook floats skip_list) × (es : List TradeExecutedEvent) × (rest : ℤ) × (match_order
        skip_list clock_at
        (record book { sequencer = drawn.0 })
        (book_entry env "BTCUSDT" order drawn.1)
      ≡ some (ob, es, rest))
    × ((match_worker_turn store db ℕ skip_list env (engine (some manager)) "BTCUSDT" ≡ none)
        ↔ Falling turn (pipeline (counter "position") (some manager)) 0 es)
match_worker_turn_panics_iff_example =
    match_worker_turn_panics_iff skip_list env (engine (some manager)) "BTCUSDT" order [] book front
      its_book book-IsBook (refl, omega arith) refl (λ h. cc)
