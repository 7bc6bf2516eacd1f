-- ===== src/Examples/Recovery.antt =====
-- The recovery at concrete inputs: one event behind an empty table of checkpoints.
use cex_hertz_backend.Base.{
  ℕ, zero, suc, pos, String, Bool, true, false, some, List, [], ◌∷◌, ◌≡◌, ◌↔◌, refl, lookup_or,
  lookup, insert,
}
use cex_hertz_backend.Events.Types.{event_seq, event_type, symbol}
use cex_hertz_backend.EventLog.Envelope.{marshal_event, unmarshal_event}
use cex_hertz_backend.EventLog.Log.{
  append_event, get_events_by_symbol, scan, new_in_memory_event_log,
}
use cex_hertz_backend.Pipeline.Rows.{
  get_recovery_context, get_checkpoint_summary, get_latest_checkpoint,
}
use cex_hertz_backend.Pipeline.Context.{new_event_context, with_ownership_epoch, is_valid}
use cex_hertz_backend.Pipeline.Dispatch.{EventPipeline}
use cex_hertz_backend.Pipeline.Process.{context_invalid, process_event_with_context}
use cex_hertz_backend.Recovery.Lock.{Tries, acquire, with_lock, with_recovery_lock}
use cex_hertz_backend.Recovery.Executor.{
  RecoveryOptions, RecoveryResult, RecoveryItem, RecoveryExecutor, Outside, default_options,
  empty_result, not_processed, recover_single_processor, recover_locked, replay_events,
  events_to_replay, events_of,
}
use cex_hertz_backend.Recovery.Plan.{
  new_recovery_executor, execute_recovery, executed, panicked, overall, count_stats, recover_all,
  get_pending_recovery_list, named_items, named_symbols,
}
use cex_hertz_backend.Recovery.Startup.{execute_recovery_idle, execute_recovery_panics_iff}
use cex_hertz_backend.Examples.EventLog.{json, cancel}
use cex_hertz_backend.Examples.Pipeline.{db, store, turn, pipeline, broken, manager}

-- The lock is free in the second round.
abbrev second : Tries
second = record {
  taken = λ i. elim i [ zero ↦ false | suc n ↦ true ];
  expired = λ i. false;
  ended = λ i. false;
}

abbrev order : String
order = "o-1"

abbrev free : Tries
free = record { taken = λ i. true; expired = λ i. false; ended = λ i. false }

abbrev env : Outside ℕ
env = record {
  turn = turn;
  start = pos 1000;
  end_time = pos 2000;
  tries = λ p n. free;
  cancelled = λ i. false;
  hash = λ s. s;
  order_book_text = λ n w. "";
  positions_text = λ w. "";
}

abbrev options : RecoveryOptions
options = record default_options { processor_names = "database" ∷ []; symbols = "BTCUSDT" ∷ [] }

abbrev ep : EventPipeline store db ℕ
ep = record (pipeline broken (some manager)) {
  event_log = (append_event json (new_in_memory_event_log json) (some (cancel 7 "BTCUSDT"))).0;
}

abbrev executor : Bool → RecoveryExecutor store db ℕ
executor locks = new_recovery_executor store db ℕ (pos 0) locks true

-- The one item fails.
abbrev results : List RecoveryResult
results =
    record (empty_result (pos 0) "database" "BTCUSDT") {
      validation_error = some (not_processed context_invalid);
    }
    ∷ []

recovery_fails :
    execute_recovery store db ℕ env (executor true) (some options) ep 0
    ≡ executed
        (count_stats store db ℕ env results (executor true))
        ep
        0
        (overall store db ℕ env results)
unfolding new_recovery_executor execute_recovery recover_all get_pending_recovery_list named_items
    named_symbols get_recovery_context get_checkpoint_summary get_latest_checkpoint
    recover_single_processor recover_locked with_recovery_lock with_lock acquire events_to_replay
    events_of replay_events get_events_by_symbol scan lookup lookup_or append_event marshal_event
    unmarshal_event insert new_in_memory_event_log symbol event_seq event_type new_event_context
    with_ownership_epoch is_valid process_event_with_context default_options
recovery_fails = refl

execute_recovery_idle_example :
    (ep ≡ ep) × (◌≡◌ {A = ℕ} 0 0) × ((overall store db ℕ env results).events_replayed ≡ pos 0)
execute_recovery_idle_example =
    execute_recovery_idle env (executor true) (count_stats store db ℕ env results (executor true))
      (some options) ep ep 0 0 (overall store db ℕ env results) recovery_fails

execute_recovery_panics_iff_example :
    (execute_recovery store db ℕ env (executor false) (some options) ep 0 ≡ panicked) ↔ (
      (i : RecoveryItem) × (is : List RecoveryItem) × (get_pending_recovery_list store db ℕ
          (pos 1000)
          manager
          options
        ≡ some (i ∷ is)))
unfolding new_recovery_executor
execute_recovery_panics_iff_example =
    execute_recovery_panics_iff env (executor false) options ep 0 manager refl refl refl
