-- ===== src/Offsets/Tracker.antt =====
-- `OffsetTracker` of biz/service/kafka_offset_tracker.go. Its methods run under its lock. Whether
-- Postgres saves a checkpoint, and the readings of the clock, are arguments.
use Prim.Native.String.{◌++◌}
use cex_hertz_backend.Base.{
  ℕ, ℤ, pos, String, Bool, Option, none, some, ltb_ℤ, add64, sub64, if◌then◌else◌,
}

pub record OffsetTracker : Type 0 where
  pub symbol : String
  pub processor_name : String
  pub consumed_offset : ℤ
  pub committed_offset : ℤ
  pub last_commit_time : ℕ
  pub kafka_producer_offset : ℤ
  pub kafka_consumer_group : String
  pub commit_count : ℤ
  pub commit_failure_count : ℤ
  pub lag_high_water_mark : ℤ

pub data CommitError : Type 0 where
  beyond_consumed save_failed : CommitError

pub data Inconsistency : Type 0 where
  committed_beyond_consumed consumed_beyond_produced negative_lag : Inconsistency

unfoldable pub new_offset_tracker : String → String → ℕ → OffsetTracker
new_offset_tracker sym_name processor moment = record {
  symbol = sym_name;
  processor_name = processor;
  consumed_offset = pos 0;
  committed_offset = pos 0;
  last_commit_time = moment;
  kafka_producer_offset = pos 0;
  kafka_consumer_group = "cex-hertz-" ++ processor;
  commit_count = pos 0;
  commit_failure_count = pos 0;
  lag_high_water_mark = pos 0;
}

unfoldable pub track_consumed_offset : OffsetTracker → ℤ → OffsetTracker
track_consumed_offset t offset =
    if ltb_ℤ t.consumed_offset offset then record t { consumed_offset = offset } else t

-- The checkpoint that CommitOffset writes, less its time.
pub record Checkpoint : Type 0 where
  pub processor_name : String
  pub symbol : String
  pub event_seq : ℕ
  pub kafka_offset : ℤ
  pub recovery_status : String

-- The checkpoint of a call. The numbers are those of the call.
unfoldable pub checkpoint_of : OffsetTracker → ℤ → ℕ → Checkpoint
checkpoint_of t offset seq = record {
  processor_name = t.processor_name;
  symbol = t.symbol;
  event_seq = seq;
  kafka_offset = offset;
  recovery_status = "none";
}

-- `save` is SaveCheckpoint, which answers whether the row was written.
unfoldable pub commit_offset :
    (Checkpoint → Bool) → OffsetTracker → ℤ → ℕ → ℕ → OffsetTracker × Option CommitError
commit_offset save t offset seq now =
    if ltb_ℤ t.consumed_offset offset
    then (t, some beyond_consumed)
    else if save (checkpoint_of t offset seq)
    then (
      record t {
        committed_offset = offset;
        last_commit_time = now;
        commit_count = add64 t.commit_count (pos 1);
      },
      none,
    )
    else (
      record t { commit_failure_count = add64 t.commit_failure_count (pos 1) },
      some save_failed,
    )

-- GetConsumerLag writes the high-water mark as it reads.
unfoldable pub get_consumer_lag : OffsetTracker → OffsetTracker × ℤ
get_consumer_lag t =
    let lag = sub64 t.kafka_producer_offset t.committed_offset in
    (if ltb_ℤ t.lag_high_water_mark lag then record t { lag_high_water_mark = lag } else t, lag)

unfoldable pub get_consumed_but_not_committed : OffsetTracker → ℤ
get_consumed_but_not_committed t = sub64 t.consumed_offset t.committed_offset

unfoldable pub get_recovery_start_offset : OffsetTracker → ℤ
get_recovery_start_offset t = add64 t.committed_offset (pos 1)

unfoldable pub verify_offset_consistency : OffsetTracker → Option Inconsistency
verify_offset_consistency t =
    if ltb_ℤ t.consumed_offset t.committed_offset
    then some committed_beyond_consumed
    else if ltb_ℤ t.kafka_producer_offset t.consumed_offset
    then some consumed_beyond_produced
    else if ltb_ℤ (sub64 t.kafka_producer_offset t.committed_offset) (pos 0)
    then some negative_lag
    else none

unfoldable pub update_kafka_producer_offset : OffsetTracker → ℤ → OffsetTracker
update_kafka_producer_offset t offset =
    if ltb_ℤ t.kafka_producer_offset offset then record t { kafka_producer_offset = offset } else t

pub record OffsetStatus : Type 0 where
  pub symbol : String
  pub processor_name : String
  pub consumed_offset : ℤ
  pub committed_offset : ℤ
  pub produced_offset : ℤ
  pub consumer_lag : ℤ
  pub consumed_but_not_committed : ℤ
  pub last_commit_time : ℕ
  pub commit_count : ℤ
  pub commit_failure_count : ℤ
  pub lag_high_water_mark : ℤ

unfoldable pub get_status : OffsetTracker → OffsetStatus
get_status t = record {
  symbol = t.symbol;
  processor_name = t.processor_name;
  consumed_offset = t.consumed_offset;
  committed_offset = t.committed_offset;
  produced_offset = t.kafka_producer_offset;
  consumer_lag = sub64 t.kafka_producer_offset t.committed_offset;
  consumed_but_not_committed = sub64 t.consumed_offset t.committed_offset;
  last_commit_time = t.last_commit_time;
  commit_count = t.commit_count;
  commit_failure_count = t.commit_failure_count;
  lag_high_water_mark = t.lag_high_water_mark;
}
