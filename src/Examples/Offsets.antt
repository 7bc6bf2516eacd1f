-- ===== src/Examples/Offsets.antt =====
-- Kafka offsets at concrete inputs.
use cex_hertz_backend.Base.{pos, Bool, List, true, [], ◌∷◌, ◌≡◌, ◌≤ℤ◌}
use cex_hertz_backend.Offsets.Tracker.{OffsetTracker, Checkpoint, new_offset_tracker}
use cex_hertz_backend.Offsets.Invariant.{
  Call, track_consumed, commit, update_produced, read_lag, run, highest_consumed, highest_produced,
  run-new_offset_tracker,
}

abbrev saves : Checkpoint → Bool
saves c = true

abbrev calls : List Call
calls =
    update_produced (pos 9)
    ∷ track_consumed (pos 5)
    ∷ commit saves (pos 4) 12 1
    ∷ track_consumed (pos 3)
    ∷ read_lag
    ∷ []

abbrev tracker : OffsetTracker
tracker = record {
  symbol = "BTCUSDT";
  processor_name = "asset";
  consumed_offset = pos 5;
  committed_offset = pos 4;
  last_commit_time = 1;
  kafka_producer_offset = pos 9;
  kafka_consumer_group = "cex-hertz-asset";
  commit_count = pos 1;
  commit_failure_count = pos 0;
  lag_high_water_mark = pos 5;
}

run-new_offset_tracker_example :
    ((run (new_offset_tracker "BTCUSDT" "asset" 0) calls).committed_offset
      ≤ℤ (run (new_offset_tracker "BTCUSDT" "asset" 0) calls).consumed_offset)
    × ((run (new_offset_tracker "BTCUSDT" "asset" 0) calls).consumed_offset
        ≡ highest_consumed (pos 0) calls)
    × ((run (new_offset_tracker "BTCUSDT" "asset" 0) calls).kafka_producer_offset
        ≡ highest_produced (pos 0) calls)
run-new_offset_tracker_example = run-new_offset_tracker "BTCUSDT" "asset" 0 calls
