-- ===== src/Examples/Pipeline.antt =====
-- The event pipeline at concrete inputs: a log in memory, a table of checkpoints that is a list, and
-- a world that counts events.
use mathlib.Core.List.{Permᴰ}
use cex_hertz_backend.Base.{
  ℕ, suc, ◌+◌, ◌%◌, ◌^◌, pos, String, str_eq, str_eq_refl, true, ◌&&◌, Option, none, some, List, [],
  ◌∷◌, ◌≡◌, ◌↔◌, inr, refl, arith, All, add64, if◌then◌else◌, keep, lookup_or, lookup, insert,
}
use cex_hertz_backend.Events.Types.{event_seq, symbol}
use cex_hertz_backend.EventLog.Store.{EventStore, in_memory}
use cex_hertz_backend.EventLog.Log.{append_event, new_in_memory_event_log}
use cex_hertz_backend.Pipeline.Rows.{
  EventOffsetCheckpoint, RecoveryContext, CheckpointDb, KeepsProgress, save_checkpoint,
  get_recovery_context,
}
use cex_hertz_backend.Pipeline.Context.{EventContext, new_event_context}
use cex_hertz_backend.Pipeline.Checkpoints.{CheckpointManager}
use cex_hertz_backend.Pipeline.Dispatch.{
  Processor, Turn, EventPipeline, deliver, deliver_all, dispatch_to_processors, flush_all,
}
use cex_hertz_backend.Pipeline.Process.{
  PipelineError, process_event, process_event_with_context, get_processor_offset,
  new_event_pipeline, set_checkpoint_manager, register_processor,
}
use cex_hertz_backend.Pipeline.Once.{dispatch_to_processors_again}
use cex_hertz_backend.Pipeline.Refinement.{done, next, highest_of, Run-highest_of}
use cex_hertz_backend.Pipeline.Crash.{Falls, here, process_event_panics_iff}
use cex_hertz_backend.Pipeline.Registered.{Registered, Steady, register_processor-Registered}
use cex_hertz_backend.Pipeline.Returns.{process_event_with_context_returns}
use cex_hertz_backend.Pipeline.Resume.{get_recovery_context-save_checkpoint}
use cex_hertz_backend.Examples.EventLog.{json, cancel}

abbrev find_row : String → String → List EventOffsetCheckpoint → Option EventOffsetCheckpoint
find_row p n [] = none
find_row p n (r ∷ rs) =
    if str_eq r.processor_name p && str_eq r.symbol n then some r else find_row p n rs

abbrev change_rows :
    String
    → String
    → (EventOffsetCheckpoint → EventOffsetCheckpoint)
    → List EventOffsetCheckpoint
    → List EventOffsetCheckpoint
change_rows p n f [] = []
change_rows p n f (r ∷ rs) =
    (if str_eq r.processor_name p && str_eq r.symbol n then f r else r) ∷ change_rows p n f rs

-- A table is the list of its rows, the last written first.
abbrev pub db : CheckpointDb
db = record {
  Table = List EventOffsetCheckpoint;
  upsert = λ r t. (r ∷ t, true);
  first = λ p n t. some (find_row p n t);
  updates = λ p n f t. (change_rows p n f t, true);
  find = λ test t. some (keep test t);
}

db-KeepsProgress : KeepsProgress db
db-KeepsProgress = record {
  first-upsert = λ r t h.
      rw (str_eq_refl r.processor_name, str_eq_refl r.symbol) (r, refl, refl, refl, refl, refl);
}

abbrev pub store : EventStore json
store = in_memory json

abbrev pub counter : String → Processor ℕ
counter name = record { processor_name = name; process_event = λ e w. some (suc w, none) }

abbrev pub broken : Processor ℕ
broken = record { processor_name = "database"; process_event = λ e w. some (w, some "down") }

abbrev pub turn : Turn ℕ
turn = record { now = pos 1000; order = λ ps. ps }

abbrev pub pipeline : Processor ℕ → Option (CheckpointManager db) → EventPipeline store db ℕ
pipeline p cm = record {
  event_log = new_in_memory_event_log json;
  processors = p ∷ [];
  processor_offsets = (p.processor_name, []) ∷ [];
  kafka_offsets = (p.processor_name, []) ∷ [];
  checkpoint_mgr = cm;
  processed_event_count = pos 0;
  failed_event_count = pos 0;
}

-- The pipeline behind the event 7.
abbrev behind_7 : EventPipeline store db ℕ
behind_7 = record (pipeline (counter "position") none) {
  processor_offsets = ("position", ("BTCUSDT", 7) ∷ []) ∷ [];
  processed_event_count = add64 (pos 0) (pos 1);
}

dispatched_7 :
    dispatch_to_processors store db ℕ turn
      (pipeline (counter "position") none)
      0
      (cancel 7 "BTCUSDT")
      none
    ≡ some (behind_7, 1, none)
unfolding dispatch_to_processors deliver_all deliver lookup_or lookup insert event_seq symbol
dispatched_7 = refl

dispatch_to_processors_again_example :
    (ep : EventPipeline store db ℕ) × (dispatch_to_processors store db ℕ turn behind_7 1
        (cancel 5 "BTCUSDT")
        none
      ≡ some (ep, 1, none))
    × (ep ≡ flush_all store db ℕ turn.now behind_7)
    × (ep.kafka_offsets ≡ behind_7.kafka_offsets)
    × (ep.processor_offsets ≡ behind_7.processor_offsets)
    × (ep.processed_event_count ≡ behind_7.processed_event_count)
    × (ep.failed_event_count ≡ behind_7.failed_event_count)
unfolding event_seq symbol
dispatch_to_processors_again_example =
    dispatch_to_processors_again turn turn (pipeline (counter "position") none) behind_7 0 1
      (cancel 7 "BTCUSDT") (cancel 5 "BTCUSDT") none none (Permᴰ.cons refl Permᴰ.nil)
      (Permᴰ.cons refl Permᴰ.nil) dispatched_7 refl (omega arith)

Run-highest_of_example :
    All
      (λ p.
        get_processor_offset store db ℕ behind_7 p.processor_name "BTCUSDT"
        ≡ highest_of (cancel 7 "BTCUSDT" ∷ []) "BTCUSDT" (
            get_processor_offset store db ℕ
              (pipeline (counter "position") none)
              p.processor_name
              "BTCUSDT"))
      (counter "position" ∷ [])
Run-highest_of_example =
    Run-highest_of (next turn none (Permᴰ.cons refl Permᴰ.nil) dispatched_7 done) "BTCUSDT"

abbrev pub manager : CheckpointManager db
manager = record { table = []; checkpoints = [] }

process_event_panics_iff_example :
    (process_event store db ℕ turn
        (pipeline (counter "position") (some manager))
        0
        (some (cancel 7 "BTCUSDT"))
      ≡ none)
    ↔ (((store.append (some (cancel 7 "BTCUSDT")) (new_in_memory_event_log json)).1 ≡ true)
        × Falls (("position", []) ∷ []) (cancel 7 "BTCUSDT") 0 (counter "position" ∷ []))
process_event_panics_iff_example =
    process_event_panics_iff turn (pipeline (counter "position") (some manager)) 0
      (cancel 7 "BTCUSDT") manager refl

-- The processor falls.
falls : Falls (("position", []) ∷ []) (cancel 7 "BTCUSDT") 0 (counter "position" ∷ [])
unfolding event_seq symbol lookup_or lookup
falls = here (omega arith) (inr (1, refl))

-- The event 7 stands in the log, and its processor refused it.
abbrev refused_7 : EventPipeline store db ℕ
refused_7 = record (pipeline broken (some manager)) {
  event_log = (append_event json (new_in_memory_event_log json) (some (cancel 7 "BTCUSDT"))).0;
  failed_event_count = add64 (pos 0) (pos 1);
}

-- A pipeline that is built as main.go does it.
abbrev built : EventPipeline store db ℕ
built =
    set_checkpoint_manager store db ℕ
      (register_processor store db ℕ (new_event_pipeline store db ℕ (new_in_memory_event_log json))
        (counter "position"))
      (some manager)

abbrev record_7 : EventContext
record_7 = new_event_context (pos 1000) (some (cancel 7 "BTCUSDT")) "orders" (pos 0) (pos 40)

built-Registered : Registered built
unfolding set_checkpoint_manager new_event_pipeline
built-Registered =
    register_processor-Registered (new_event_pipeline store db ℕ (new_in_memory_event_log json))
      (counter "position") tt

one_order : Permᴰ built.processors (turn.order built.processors)
unfolding set_checkpoint_manager register_processor new_event_pipeline
one_order = Permᴰ.cons refl Permᴰ.nil

built-Steady : All Steady built.processors
unfolding set_checkpoint_manager register_processor new_event_pipeline
built-Steady = (λ e w h. cc, tt)

process_event_with_context_returns_example :
    (ep : EventPipeline store db ℕ) × (w : ℕ) × (error : Option PipelineError)
    × (process_event_with_context store db ℕ turn built 0 (some record_7) ≡ some (ep, w, error))
    × Registered ep
    × (ep.processors ≡ built.processors)
process_event_with_context_returns_example =
    process_event_with_context_returns turn built 0 (some record_7) one_order built-Steady
      built-Registered

abbrev row : EventOffsetCheckpoint
row = record {
  processor_name = "position";
  symbol = "BTCUSDT";
  event_seq = 7;
  kafka_offset = pos 40;
  partition_id = pos 0;
  timestamp = pos 0;
  state_checksum = "c7";
  order_count = pos 1;
  trade_count = pos 0;
  recovery_status = "";
  recovery_start_time = none;
  recovery_end_time = none;
  recovery_error = "";
}

get_recovery_context-save_checkpoint_example :
    (c : RecoveryContext) × (get_recovery_context db
        (pos 3000)
        "position"
        "BTCUSDT"
        (save_checkpoint db (pos 2000) row []).0
      ≡ some c)
    × (c.start_event_seq ≡ (7 + 1) % 2 ^ 64)
    × (c.start_kafka_offset ≡ add64 (pos 40) (pos 1))
    × (c.pre_crash_checksum ≡ "c7")
unfolding save_checkpoint
get_recovery_context-save_checkpoint_example =
    get_recovery_context-save_checkpoint db (pos 2000) (pos 3000) row [] db-KeepsProgress refl
