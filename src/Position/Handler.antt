-- ===== src/Position/Handler.antt =====
-- `PositionProcessor` of biz/service/event_processor_position.go, with `ProcessedRepo` of
-- biz/dal/pg/processed_repo.go. What the database and the two functions of the positions do is a
-- parameter. The calls for one symbol run under its lock.
use cex_hertz_backend.Base.{
  ℤ, String, str_eq, ◌≡◌, Bool, true, false, Option, none, some, List, [], ◌∷◌, if◌then◌else◌,
}
use cex_hertz_backend.Events.Types.{
  TradeExecutedEvent, MatchingEngineEvent, submitted, executed, cancelled,
}
use cex_hertz_backend.Pipeline.Dispatch.{Processor}

pub record OutboxEntry : Type 0 where
  pub event_id : String
  pub event_type : String
  pub aggregate_id : String
  pub aggregate_type : String
  pub payload : String
  pub published : Bool
  pub created_at : ℤ
  pub updated_at : ℤ

-- The text of an error, where there is one. The answer of an insertion tells whether the row is new;
-- `none` is an error.
pub record PositionDb : Type 1 where
  pub Store : Type 0
  pub buy : String → String → String → String → Store → Store × Option String
  pub sell : String → String → String → Store → Store × Option String
  pub write_outbox : OutboxEntry → Store → Store × Option Bool
  pub write_processed : String → Store → Store × Option Bool
  pub delete_processed : String → Store → Store

-- How a commit can end. An error comes back of one that was refused, and also of one that was done
-- while its answer was lost.
pub data Commit : Type 0 where
  committed refused unanswered : Commit

abbrev pub remembers : String → List String → Bool
remembers id [] = false
remembers id (x ∷ xs) = if str_eq x id then true else remembers id xs

module _ (P : PositionDb) where
  -- Whether it has a database with an outbox, and a table of processed trades; the trades in memory.
  pub record PositionProcessor : Type 0 where
    pub has_outbox : Bool
    pub has_processed_repo : Bool
    pub processed_trades : List String

  -- What a call reads of the outside: what a trade's texts are made with, "%.8f" of a number by 1e8 and
  -- JSON, the time, and how its commit ends.
  pub record Texts : Type 0 where
    pub format : ℤ → String
    pub payload : TradeExecutedEvent → String
    pub now : ℤ
    pub commit : Commit

  pub record World : Type 0 where
    pub processor : PositionProcessor
    pub store : P.Store

  unfoldable pub new_position_processor : PositionProcessor
  new_position_processor = record {
    has_outbox = false;
    has_processed_repo = false;
    processed_trades = [];
  }

  -- With a database and an outbox repository that are not nil.
  unfoldable pub new_position_processor_with_outbox : PositionProcessor
  new_position_processor_with_outbox = record {
    has_outbox = true;
    has_processed_repo = true;
    processed_trades = [];
  }

  abbrev pub and_then :
      P.Store × Option String → (P.Store → P.Store × Option String) → P.Store × Option String
  and_then (s, some error) f = (s, some error)
  and_then (s, none) f = f s

  -- The taker's side first. The second step is not tried behind a failed first one.
  unfoldable pub move_positions : Texts → TradeExecutedEvent → P.Store → P.Store × Option String
  move_positions t e s =
      let quantity = t.format e.quantity in
      let price = t.format e.price in
      if str_eq e.taker_side "buy"
      then and_then (P.buy e.taker_user e.symbol_str quantity price s)
          (λ s'. P.sell e.maker_user e.symbol_str quantity s')
      else and_then (P.sell e.taker_user e.symbol_str quantity s)
          (λ s'. P.buy e.maker_user e.symbol_str quantity price s')

  abbrev pub outbox_entry : Texts → TradeExecutedEvent → OutboxEntry
  outbox_entry t e = record {
    event_id = e.trade_id;
    event_type = "TradeExecuted";
    aggregate_id = e.symbol_str;
    aggregate_type = "OrderBook";
    payload = t.payload e;
    published = false;
    created_at = t.now;
    updated_at = t.now;
  }

  abbrev pub written : Texts → TradeExecutedEvent → P.Store × Option Bool → P.Store × Option String
  written t e (s, none) = (s, some "outbox")
  written t e (s, some false) = (s, none)
  written t e (s, some true) = move_positions t e s

  -- The function of the transaction: the entry of the outbox, and the positions when it is new.
  unfoldable pub transaction_body : Texts → TradeExecutedEvent → P.Store → P.Store × Option String
  unfolding move_positions
  transaction_body t e s = written t e (P.write_outbox (outbox_entry t e) s)

  abbrev pub closed : Commit → P.Store → P.Store × Option String → P.Store × Option String
  closed commit before (s, some error) = (before, some error)
  closed committed before (s, none) = (s, none)
  closed refused before (s, none) = (before, some "commit")
  closed unanswered before (s, none) = (s, some "commit")

  -- A transaction whose function fails is rolled back, and one whose function does not is committed.
  unfoldable pub handle_trade_executed_transactional :
      Texts → TradeExecutedEvent → P.Store → P.Store × Option String
  unfolding transaction_body
  handle_trade_executed_transactional t e s = closed t.commit s (transaction_body t e s)

  abbrev undone : String → P.Store × Option String → P.Store × Option String
  undone id (s, none) = (s, none)
  undone id (s, some error) = (P.delete_processed id s, some error)

  abbrev deduplicated : Texts → TradeExecutedEvent → P.Store × Option Bool → P.Store × Option String
  deduplicated t e (s, none) = (s, some "processed")
  deduplicated t e (s, some false) = (s, none)
  deduplicated t e (s, some true) = undone e.trade_id (move_positions t e s)

  abbrev noted : PositionProcessor → String → P.Store × Option String → World × Option String
  noted pp id (s, some error) = (record { processor = pp; store = s }, some error)
  noted pp id (s, none) = (
    record { processor = record pp { processed_trades = id ∷ pp.processed_trades }; store = s },
    none,
  )

  abbrev in_store : PositionProcessor → P.Store × Option String → World × Option String
  in_store pp (s, error) = (record { processor = pp; store = s }, error)

  -- Without a transaction: the mark in the table, or the one in memory.
  unfoldable pub handle_trade_executed : Texts → TradeExecutedEvent → World → World × Option String
  unfolding move_positions
  handle_trade_executed t e w =
      if w.processor.has_processed_repo
      then in_store w.processor (deduplicated t e (P.write_processed e.trade_id w.store))
      else if remembers e.trade_id w.processor.processed_trades
      then (w, none)
      else noted w.processor e.trade_id (move_positions t e w.store)

  unfoldable pub process_trade : Texts → MatchingEngineEvent → World → World × Option String
  unfolding handle_trade_executed handle_trade_executed_transactional
  process_trade t (executed e) w =
      if w.processor.has_outbox
      then in_store w.processor (handle_trade_executed_transactional t e w.store)
      else handle_trade_executed t e w
  process_trade t (submitted e) w = (w, none)
  process_trade t (cancelled e) w = (w, none)

  unfoldable pub reset : PositionProcessor → PositionProcessor
  reset pp = record pp { processed_trades = [] }

  -- As a processor of the pipeline.
  unfoldable pub position_processor : Texts → Processor World
  unfolding process_trade
  position_processor t = record {
    processor_name = "PositionProcessor";
    process_event = λ e w. some (process_trade t e w);
  }

  -- What the outbox promises: an insertion that finds its id leaves the store; one that is new makes
  -- its id known; and no change of a position makes an id unknown.
  pub record KeepsIds : Type 1 where
    pub Known : String → P.Store → Type 0
    pub write-known :
        (o : OutboxEntry) (s : P.Store) → Known o.event_id s → P.write_outbox o s ≡ (s, some false)
    pub known-write :
        (o : OutboxEntry) (s : P.Store) (new : Bool)
        → (P.write_outbox o s).1 ≡ some new
        → Known o.event_id (P.write_outbox o s).0
    pub known-buy :
        (id user name quantity price : String) (s : P.Store)
        → Known id s
        → Known id (P.buy user name quantity price s).0
    pub known-sell :
        (id user name quantity : String) (s : P.Store)
        → Known id s
        → Known id (P.sell user name quantity s).0
