-- ===== src/Outbox/Dispatcher.antt =====
-- `OutboxDispatcher` of biz/service/outbox_dispatcher.go, with `GetWriter` of biz/dal/kafka/init.go. The
-- configuration, the JSON codec, the senders and the clock are arguments. Brokers are configured:
-- dal.Init, at the start of the program, panics where they are not.
use cex_hertz_backend.Base.{
  ℕ, ◌+◌, ℤ, String, str_eq, Bool, true, false, not, ◌||◌, Option, none, some, List, [], ◌∷◌, ◌++◌,
  Dict, if◌then◌else◌,
}
use cex_hertz_backend.Outbox.Repo.{
  OutboxRow, OutboxDb, get_unpublished, mark_published_batch, record_publish_error, clean_published,
}
use cex_hertz_backend.Outbox.Topic.{resolve_topic}

-- A sender of messages: kafka-go's writer with a topic of its own or without, or another one. It
-- answers each of its messages, by their number, with an error or not.
pub record Sender : Type 0 where
  pub is_writer : Bool
  pub own_topic : String
  pub accepts : ℕ → Bool

pub record Message : Type 0 where
  pub key : String
  pub value : String
  pub event_id : String
  pub aggregate_id : String
  pub aggregate_type : String
  pub topic : String

pub record Outside : Type 1 where
  pub Payload : Type 0
  pub unmarshal : String → Option Payload
  pub marshal : Payload → Option String
  pub lower : String → String
  pub equal_fold : String → String → Bool
  pub topics : Option (Dict String)
  -- The cache of GetWriter, and which messages a new writer for a topic takes.
  pub writers : String → Option Sender
  pub takes : String → ℕ → Bool

pub data PublishError : Type 0 where
  bad_payload unconfigured unmarshalled unsent : PublishError

abbrev pub is_known : String → Bool
is_known event_type = str_eq event_type "TradeExecuted" || str_eq event_type "PositionUpdated"

-- What the loop of Start receives: a tick at a time, or the signal of Stop.
pub data Signal : Type 0 where
  tick : ℤ → Signal
  stopped : Signal

module _ (D : OutboxDb) (O : Outside) (text : PublishError → String) where
  open O use {Payload, unmarshal, marshal, lower, equal_fold, topics, writers, takes}

  pub record OutboxDispatcher : Type 0 where
    pub table : D.Table
    pub kafka_producer : Option Sender
    pub batch_size : ℤ
    pub max_retries : ℤ
    pub is_running : Bool
    -- The messages that were handed over, and those of them that were taken, the last one first.
    pub attempts : ℕ
    pub sent : List Message

  unfoldable pub new_outbox_dispatcher : D.Table → ℤ → ℤ → OutboxDispatcher
  new_outbox_dispatcher table batch_size max_retries = record {
    table = table;
    kafka_producer = none;
    batch_size = batch_size;
    max_retries = max_retries;
    is_running = false;
    attempts = 0;
    sent = [];
  }

  unfoldable pub set_kafka_producer : Option Sender → OutboxDispatcher → OutboxDispatcher
  set_kafka_producer sender d = record d { kafka_producer = sender }

  -- A sender of the cache, or a writer of kafka-go that is made for the topic.
  unfoldable pub get_writer : String → Sender
  get_writer topic = elim (writers topic) [
    | some sender ↦ sender
    | none ↦ record { is_writer = true; own_topic = topic; accepts = takes topic }
  ]

  unfoldable pub producer_for : String → OutboxDispatcher → Option Sender
  unfolding get_writer
  producer_for topic d = elim (d.kafka_producer) [
    | none ↦ some (get_writer topic)
    | some sender ↦ some (if sender.is_writer then get_writer topic else sender)
  ]

  unfoldable pub message_for : OutboxRow → String → String → Sender → Message
  message_for e value topic sender = record {
    key = e.event_id;
    value = value;
    event_id = e.event_id;
    aggregate_id = e.aggregate_id;
    aggregate_type = e.aggregate_type;
    topic = if not sender.is_writer || str_eq sender.own_topic "" then topic else "";
  }

  -- WriteMessages, with its answer.
  unfoldable pub write_message :
      Sender → Message → OutboxDispatcher → OutboxDispatcher × Option PublishError
  write_message sender m d =
      if sender.accepts d.attempts
      then (record d { attempts = d.attempts + 1; sent = m ∷ d.sent }, none)
      else (record d { attempts = d.attempts + 1 }, some unsent)

  unfoldable pub send_with :
      Option Sender
      → Option String
      → OutboxRow
      → String
      → OutboxDispatcher
      → OutboxDispatcher × Option PublishError
  unfolding write_message message_for
  send_with none value e topic d = (d, some unconfigured)
  send_with (some sender) none e topic d = (d, some unmarshalled)
  send_with (some sender) (some value) e topic d =
      write_message sender (message_for e value topic sender) d

  unfoldable pub publish_to_kafka :
      OutboxRow → Payload → OutboxDispatcher → OutboxDispatcher × Option PublishError
  unfolding send_with producer_for
  publish_to_kafka e payload d =
      let topic = resolve_topic lower equal_fold topics e in
      send_with (producer_for topic d) (marshal payload) e topic d

  unfoldable pub publish_decoded :
      OutboxRow → Option Payload → OutboxDispatcher → OutboxDispatcher × Option PublishError
  publish_decoded e none d = (d, some bad_payload)
  publish_decoded e (some payload) d =
      if is_known e.event_type then publish_to_kafka e payload d else (d, none)

  unfoldable pub publish_entry :
      OutboxRow → OutboxDispatcher → OutboxDispatcher × Option PublishError
  unfolding publish_decoded
  publish_entry e d = publish_decoded e (unmarshal e.payload) d

  -- What the loop does with an entry: the error is written down, or the id is kept.
  unfoldable pub after_publish :
      OutboxRow
      → List String
      → OutboxDispatcher × Option PublishError
      → OutboxDispatcher × List String
  after_publish e ids (d, some error) =
      (record d { table = (record_publish_error D e.event_id (text error) d.table).0 }, ids)
  after_publish e ids (d, none) = (d, ids ++ e.event_id ∷ [])

  unfoldable pub publish_all :
      List OutboxRow → OutboxDispatcher × List String → OutboxDispatcher × List String
  unfolding after_publish
  publish_all [] (d, ids) = (d, ids)
  publish_all (e ∷ es) (d, ids) = publish_all es (after_publish e ids (publish_entry e d))

  unfoldable pub mark_successful : ℤ → OutboxDispatcher × List String → OutboxDispatcher
  mark_successful now (d, []) = d
  mark_successful now (d, id ∷ ids) = record d {
    table = (mark_published_batch D now (id ∷ ids) d.table).0;
  }

  unfoldable pub dispatch_entries :
      ℤ → Option (List OutboxRow) → OutboxDispatcher → OutboxDispatcher
  unfolding publish_all mark_successful
  dispatch_entries now none d = d
  dispatch_entries now (some []) d = d
  dispatch_entries now (some (e ∷ es)) d = mark_successful now (publish_all (e ∷ es) (d, []))

  unfoldable pub dispatch_batch : ℤ → OutboxDispatcher → OutboxDispatcher
  unfolding dispatch_entries
  dispatch_batch now d = dispatch_entries now (get_unpublished D d.batch_size d.table) d

  unfoldable pub start : OutboxDispatcher → OutboxDispatcher
  start d = if d.is_running then d else record d { is_running = true }

  unfoldable pub serve : OutboxDispatcher → List Signal → OutboxDispatcher
  unfolding dispatch_batch
  serve d [] = d
  serve d (tick now ∷ signals) = serve (dispatch_batch now d) signals
  serve d (stopped ∷ signals) = record d { is_running = false }

  unfoldable pub cleanup_published :
      (ℤ → ℤ → ℤ) → ℤ → ℤ → OutboxDispatcher → OutboxDispatcher × Bool
  cleanup_published days_before now retention_days d =
      let (t, affected) = clean_published D days_before now retention_days d.table in
      (record d { table = t }, elim affected [ none ↦ false | some n ↦ true ])
