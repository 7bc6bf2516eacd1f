-- ===== src/Pipeline/Process.antt =====
-- The methods of `EventPipeline` of biz/service/event_pipeline.go that take events. `none` of a
-- result is a panic.
use cex_hertz_backend.Base.{
  ℕ, ℤ, pos, negsuc, String, str_eq, Option, none, some, List, [], ◌∷◌, ◌++◌, lookup, lookup_or,
  insert, add64, if◌then◌else◌,
}
use cex_hertz_backend.Events.Types.{MatchingEngineEvent}
use cex_hertz_backend.EventLog.Envelope.{
  Json, EventEnvelope, decoded, nil, bad_payload, unmarshal_event,
}
use cex_hertz_backend.EventLog.Store.{EventStore}
use cex_hertz_backend.Pipeline.Context.{EventContext, is_valid}
use cex_hertz_backend.Pipeline.Rows.{CheckpointDb}
use cex_hertz_backend.Pipeline.Checkpoints.{CheckpointManager}
use cex_hertz_backend.Pipeline.Dispatch.{
  Processor, Turn, PipelineStats, EventPipeline, dispatch_to_processors, entry_of,
}

pub data PipelineError : Type 0 where
  event_nil context_nil context_invalid append_failed : PipelineError
  processor_failed : String → String → PipelineError
  log_unreadable : PipelineError

module _ {J : Json} (S : EventStore J) (D : CheckpointDb) (W : Type 0) where
  unfoldable pub new_event_pipeline : S.Log → EventPipeline S D W
  new_event_pipeline log = record {
    event_log = log;
    processors = [];
    processor_offsets = [];
    kafka_offsets = [];
    checkpoint_mgr = none;
    processed_event_count = pos 0;
    failed_event_count = pos 0;
  }

  unfoldable pub set_checkpoint_manager :
      EventPipeline S D W → Option (CheckpointManager D) → EventPipeline S D W
  set_checkpoint_manager ep cm = record ep { checkpoint_mgr = cm }

  -- A processor that is registered again starts from no progress.
  unfoldable pub register_processor : EventPipeline S D W → Processor W → EventPipeline S D W
  register_processor ep p = record ep {
    processors = ep.processors ++ p ∷ [];
    processor_offsets = insert p.processor_name [] ep.processor_offsets;
    kafka_offsets = insert p.processor_name [] ep.kafka_offsets;
  }

  abbrev pub Result : Type 0
  Result = Option (EventPipeline S D W × W × Option PipelineError)

  abbrev wrapped : Option (String × String) → Option PipelineError
  wrapped none = none
  wrapped (some (name, error)) = some (processor_failed name error)

  abbrev dispatched : Option (EventPipeline S D W × W × Option (String × String)) → Result
  dispatched none = none
  dispatched (some (ep, w, error)) = some (ep, w, wrapped error)

  -- The append to the log and the dispatch behind it, which the two methods share.
  abbrev pub append_and_dispatch :
      Turn W → EventPipeline S D W → W → MatchingEngineEvent → Option EventContext → Result
  append_and_dispatch turn ep w e ectx =
      let appended = S.append (some e) ep.event_log in
      let ep' = record ep { event_log = appended.0 } in
      if appended.1
      then dispatched (dispatch_to_processors S D W turn ep' w e ectx)
      else some (
        record ep' { failed_event_count = add64 ep'.failed_event_count (pos 1) },
        w,
        some append_failed,
      )

  unfoldable pub process_event :
      Turn W → EventPipeline S D W → W → Option MatchingEngineEvent → Result
  process_event turn ep w none = some (ep, w, some event_nil)
  process_event turn ep w (some e) = append_and_dispatch turn ep w e none

  abbrev pub with_event :
      Turn W → EventPipeline S D W → W → EventContext → Option MatchingEngineEvent → Result
  with_event turn ep w c none = some (ep, w, some context_invalid)
  with_event turn ep w c (some e) = append_and_dispatch turn ep w e (some c)

  unfoldable pub process_event_with_context :
      Turn W → EventPipeline S D W → W → Option EventContext → Result
  process_event_with_context turn ep w none = some (ep, w, some context_nil)
  process_event_with_context turn ep w (some c) =
      if is_valid c then with_event turn ep w c c.event else some (ep, w, some context_invalid)

  -- The loop over the envelopes of a replay. An event of an unknown type is nil, and its dispatch
  -- panics; an envelope that cannot be read is skipped, and an error of a processor is logged.
  unfoldable pub replay :
      Turn W → EventPipeline S D W → W → List (EventEnvelope J) → Option (EventPipeline S D W × W)
  replay turn ep w [] = some (ep, w)
  replay turn ep w (v ∷ vs) = elim (unmarshal_event J v) [
    | bad_payload ↦ replay turn ep w vs
    | nil ↦ none
    | decoded e ↦ elim (dispatch_to_processors S D W turn ep w e none) [
      | none ↦ none
      | some (ep', w', error) ↦ replay turn ep' w' vs
    ]
  ]

  abbrev replayed : Option (EventPipeline S D W × W) → Result
  replayed none = none
  replayed (some (ep, w)) = some (ep, w, none)

  unfoldable pub process_events_from_log :
      Turn W → EventPipeline S D W → W → String → ℕ → ℤ → Result
  unfolding replay
  process_events_from_log turn ep w name start limit =
      elim (S.events_of name start limit ep.event_log) [
        | none ↦ some (ep, w, some log_unreadable)
        | some vs ↦ replayed (replay turn ep w vs)
      ]

  unfoldable pub get_processor_offset : EventPipeline S D W → String → String → ℕ
  get_processor_offset ep name sym = entry_of 0 name sym ep.processor_offsets

  -- -1 for a processor that is not registered
  unfoldable pub get_processor_kafka_offset : EventPipeline S D W → String → String → ℤ
  get_processor_kafka_offset ep name sym = elim (lookup name ep.kafka_offsets) [
    | none ↦ negsuc 0
    | some offsets ↦ lookup_or (pos 0) sym offsets
  ]

  abbrev find_processor : String → List (Processor W) → Option (Processor W)
  find_processor name [] = none
  find_processor name (p ∷ ps) =
      if str_eq p.processor_name name then some p else find_processor name ps

  unfoldable pub get_processor : EventPipeline S D W → String → Option (Processor W)
  get_processor ep name = find_processor name ep.processors

  unfoldable pub get_processors : EventPipeline S D W → List (Processor W)
  get_processors ep = ep.processors

  unfoldable pub get_pipeline_stats : EventPipeline S D W → PipelineStats
  get_pipeline_stats ep = record {
    processed_events = ep.processed_event_count;
    failed_events = ep.failed_event_count;
  }
