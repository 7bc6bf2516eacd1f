-- ===== src/Examples/Outbox.antt =====
-- The dispatcher of the outbox at concrete inputs: one trade, one row of an unknown type.
use cex_hertz_backend.Base.{
  pos, String, str_eq, Bool, true, false, not, Option, none, some, List, [], ◌∷◌, ◌++◌, map, ◌≡◌,
  ◌⊎◌, inl, inr, refl, arith, All, All-weaken, keep, Bool-cases,
}
use cex_hertz_backend.Outbox.Repo.{
  OutboxRow, OutboxDb, Statements, In, change, inserted, get_unpublished, mark_published_batch,
  mark, one_of,
}
use cex_hertz_backend.Outbox.Topic.{resolve_topic, default_topic}
use cex_hertz_backend.Outbox.Dispatcher.{
  Message, Outside, PublishError, OutboxDispatcher, new_outbox_dispatcher, dispatch_batch,
  publish_entry, publish_to_kafka,
}
use cex_hertz_backend.Outbox.Settled.{Settled}
use cex_hertz_backend.Outbox.Marked.{keys, Skips}
use cex_hertz_backend.Outbox.Batch.{dispatch_batch-Settled}

abbrev db : OutboxDb
db = record {
  Table = List OutboxRow;
  rows = λ t. t;
  create = λ e t. (e ∷ t, inserted);
  create_or_nothing = λ e t. (e ∷ t, inserted);
  find = λ test order n t. some (keep test t);
  updates = λ test set t. (map (change test set) t, true);
  delete = λ test t. (keep (λ e. not (test e)) t, some (pos 0));
}

keep-In :
    (test : OutboxRow → Bool) (t : List OutboxRow)
    → All (λ e. (test e ≡ true) × In e t) (keep test t)
keep-In test [] = tt
keep-In test (x ∷ xs) =
    let rest = All-weaken (λ e h. (h.0, inr h.1)) (keep test xs) (keep-In test xs) in
    elim (Bool-cases (test x)) [ inl y ↦ rw y ((y, inl refl), rest) | inr n ↦ rw n rest ]

db-Statements : Statements db
db-Statements = record {
  updates_done = λ test set t h. refl;
  updates_failed = λ test set t h. absurd (ground arith);
  find_passes = λ test order n t es h. found test t es h;
}
  where
    found :
        (test : OutboxRow → Bool) (t es : List OutboxRow)
        → ◌≡◌ {A = Option (List OutboxRow)} (some (keep test t)) (some es)
        → All (λ e. (test e ≡ true) × In e t) es
    found test t es h = let q : keep test t ≡ es = cc in rw (← q) (keep-In test t)

abbrev outside : Outside
outside = record {
  Payload = String;
  unmarshal = λ s. some s;
  marshal = λ s. some s;
  lower = λ s. s;
  equal_fold = str_eq;
  topics = none;
  writers = λ topic. none;
  takes = λ topic n. true;
}

abbrev row : String → String → OutboxRow
row id type = record {
  event_id = id;
  event_type = type;
  aggregate_id = "BTCUSDT";
  aggregate_type = "Position";
  payload = "{}";
  published = false;
  published_at = none;
  created_at = pos 0;
  retry_count = pos 0;
  last_error = "";
}

abbrev text : PublishError → String
text e = "failed"

abbrev two_rows : OutboxDispatcher db outside text
unfolding new_outbox_dispatcher
two_rows =
    record (new_outbox_dispatcher db outside text
      (row "t-1" "TradeExecuted" ∷ row "o-1" "OrderPlaced" ∷ []) (pos 10) (pos 3)) {
        kafka_producer = some (record { is_writer = false; own_topic = ""; accepts = λ n. true });
      }

-- Both are marked, and one message is sent.
both_marked :
    let d : OutboxDispatcher db outside text = dispatch_batch db outside text (pos 7) two_rows in
    (map (λ e. e.published) d.table ≡ true ∷ true ∷ []) × (keys d.sent ≡ "t-1" ∷ [])
unfolding two_rows new_outbox_dispatcher dispatch_batch get_unpublished mark_published_batch mark
    one_of resolve_topic default_topic publish_entry publish_to_kafka
both_marked = (refl, refl)

dispatch_batch-Settled_example :
    (new : List Message) × ((dispatch_batch db outside text (pos 7) two_rows).sent
      ≡ new ++ two_rows.sent)
    × Settled
        (λ id. In id (keys new) ⊎ Skips outside id two_rows.table)
        two_rows.table
        (dispatch_batch db outside text (pos 7) two_rows).table
dispatch_batch-Settled_example =
    dispatch_batch-Settled db outside text db-Statements (pos 7) two_rows
