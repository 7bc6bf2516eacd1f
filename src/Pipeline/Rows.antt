-- ===== src/Pipeline/Rows.antt =====
-- The rows of biz/model/checkpoint.go and the repository of biz/dal/pg/checkpoint_repo.go. The
-- database is a parameter: what its statements answer, and what they leave.
use cex_hertz_backend.Base.{
  ℕ, suc, ◌+◌, ◌/◌, ◌%◌, ◌^◌, ℤ, pos, negsuc, String, str_eq, Bool, true, false, ◌||◌, Option, none,
  some, List, ◌≡◌, add64, sub64, if◌then◌else◌,
}

-- Times are numbers of milliseconds.
pub record EventOffsetCheckpoint : Type 0 where
  pub processor_name : String
  pub symbol : String
  pub event_seq : ℕ
  pub kafka_offset : ℤ
  pub partition_id : ℤ
  pub timestamp : ℤ
  pub state_checksum : String
  pub order_count : ℤ
  pub trade_count : ℤ
  pub recovery_status : String
  pub recovery_start_time : Option ℤ
  pub recovery_end_time : Option ℤ
  pub recovery_error : String

pub record CheckpointSummary : Type 0 where
  pub symbol : String
  pub processor_name : String
  pub last_event_seq : ℕ
  pub last_kafka_offset : ℤ
  pub last_checkpoint_time : ℤ
  pub state_checksum : String
  pub seconds_since_last_cp : ℤ

pub record RecoveryContext : Type 0 where
  pub symbol : String
  pub processor_name : String
  pub start_event_seq : ℕ
  pub start_kafka_offset : ℤ
  pub topic : String
  pub partition : ℤ
  pub pre_crash_checksum : String
  pub expected_order_count : ℤ
  pub expected_trade_count : ℤ
  pub seconds_since_last_cp : ℤ
  pub recovery_start_time : ℤ
  pub recovery_end_time : ℤ
  pub recovered_event_count : ℤ
  pub recovery_success : Bool
  pub recovery_error : String

-- The statements of the repository. `none` is an error of a query; the Boolean of a write tells
-- whether it was done.
pub record CheckpointDb : Type 1 where
  pub Table : Type 0
  -- INSERT with ON CONFLICT (processor_name, symbol) DO UPDATE of the columns of progress
  pub upsert : EventOffsetCheckpoint → Table → Table × Bool
  -- the row of a processor and a symbol
  pub first : String → String → Table → Option (Option EventOffsetCheckpoint)
  pub updates :
      String → String → (EventOffsetCheckpoint → EventOffsetCheckpoint) → Table → Table × Bool
  -- the rows that pass a test
  pub find : (EventOffsetCheckpoint → Bool) → Table → Option (List EventOffsetCheckpoint)

-- What the statements promise of the columns that tell the progress.
pub record KeepsProgress (D : CheckpointDb) : Type 0 where
  pub first-upsert :
      (r : EventOffsetCheckpoint) (t : D.Table)
      → (D.upsert r t).1 ≡ true
      → (s : EventOffsetCheckpoint) × (D.first r.processor_name r.symbol (D.upsert r t).0
          ≡ some (some s))
        × (s.event_seq ≡ r.event_seq)
        × (s.kafka_offset ≡ r.kafka_offset)
        × (s.state_checksum ≡ r.state_checksum)
        × (s.timestamp ≡ r.timestamp)

-- ms / 1000, towards 0
abbrev pub seconds : ℤ → ℤ
seconds (pos n) = pos (n / 1000)
seconds (negsuc n) = neg (suc n / 1000)
  where
    neg : ℕ → ℤ
    neg ℕ.zero = pos 0
    neg (ℕ.suc k) = negsuc k

module _ (D : CheckpointDb) where
  -- SaveCheckpoint stamps the row through its pointer, so the row comes back with the result.
  unfoldable pub save_checkpoint :
      ℤ → EventOffsetCheckpoint → D.Table → D.Table × Bool × EventOffsetCheckpoint
  save_checkpoint now r t =
      if str_eq r.processor_name "" || str_eq r.symbol ""
      then (t, false, r)
      else let stamped = record r { timestamp = now } in
        let done = D.upsert stamped t in (done.0, done.1, stamped)

  unfoldable pub get_latest_checkpoint :
      String → String → D.Table → Option (Option EventOffsetCheckpoint)
  get_latest_checkpoint processor name t = D.first processor name t

  abbrev summary_of : ℤ → String → String → EventOffsetCheckpoint → CheckpointSummary
  summary_of now processor name r = record {
    symbol = name;
    processor_name = processor;
    last_event_seq = r.event_seq;
    last_kafka_offset = r.kafka_offset;
    last_checkpoint_time = r.timestamp;
    state_checksum = r.state_checksum;
    seconds_since_last_cp = seconds (sub64 now r.timestamp);
  }

  -- `some none` is a nil summary and no error.
  unfoldable pub get_checkpoint_summary :
      ℤ → String → String → D.Table → Option (Option CheckpointSummary)
  unfolding get_latest_checkpoint
  get_checkpoint_summary now processor name t = elim (get_latest_checkpoint processor name t) [
    | none ↦ none
    | some none ↦ some none
    | some (some r) ↦ some (some (summary_of now processor name r))
  ]

  abbrev fresh_context : ℤ → String → String → RecoveryContext
  fresh_context now processor name = record {
    symbol = name;
    processor_name = processor;
    start_event_seq = 0;
    start_kafka_offset = pos 0;
    topic = "";
    partition = pos 0;
    pre_crash_checksum = "";
    expected_order_count = pos 0;
    expected_trade_count = pos 0;
    seconds_since_last_cp = pos 0;
    recovery_start_time = now;
    recovery_end_time = pos 0;
    recovered_event_count = pos 0;
    recovery_success = false;
    recovery_error = "";
  }

  abbrev start_from : RecoveryContext → Option CheckpointSummary → RecoveryContext
  start_from c none = record c { start_event_seq = 1; start_kafka_offset = pos 0 }
  start_from c (some s) = record c {
    start_event_seq = (s.last_event_seq + 1) % 2 ^ 64;
    start_kafka_offset = add64 s.last_kafka_offset (pos 1);
    pre_crash_checksum = s.state_checksum;
    seconds_since_last_cp = s.seconds_since_last_cp;
  }

  unfoldable pub get_recovery_context : ℤ → String → String → D.Table → Option RecoveryContext
  unfolding get_checkpoint_summary
  get_recovery_context now processor name t = elim (get_checkpoint_summary now processor name t) [
    | none ↦ none
    | some s ↦ some (start_from (fresh_context now processor name) s)
  ]

  -- SaveRecoveryResult stamps the context and writes to the log of the program only.
  unfoldable pub save_recovery_result : ℤ → RecoveryContext → RecoveryContext
  save_recovery_result now c = record c { recovery_end_time = now }

  unfoldable pub mark_recovery_in_progress : ℤ → String → String → D.Table → D.Table × Bool
  mark_recovery_in_progress now processor name t =
      D.updates processor name
        (λ r. record r {
          recovery_status = "in_progress";
          recovery_start_time = some now;
          recovery_error = "";
        })
        t

  unfoldable pub mark_row_complete : ℤ → String → String → D.Table → D.Table × Bool
  mark_row_complete now processor name t =
      D.updates processor name
        (λ r. record r { recovery_status = "complete"; recovery_end_time = some now }) t

  unfoldable pub mark_recovery_failed : ℤ → String → String → String → D.Table → D.Table × Bool
  mark_recovery_failed now processor name message t =
      D.updates processor name
        (λ r. record r {
          recovery_status = "failed";
          recovery_end_time = some now;
          recovery_error = message;
        })
        t

  -- A row that is missing reads as "none".
  unfoldable pub get_recovery_status : String → String → D.Table → Option String
  get_recovery_status processor name t = elim (D.first processor name t) [
    | none ↦ none
    | some none ↦ some "none"
    | some (some r) ↦ some r.recovery_status
  ]

  unfoldable pub list_failed_recoveries : D.Table → Option (List EventOffsetCheckpoint)
  list_failed_recoveries t = D.find (λ r. str_eq r.recovery_status "failed") t

  unfoldable pub list_pending_rows : D.Table → Option (List EventOffsetCheckpoint)
  list_pending_rows t =
      D.find (λ r. str_eq r.recovery_status "in_progress" || str_eq r.recovery_status "failed") t
