-- ===== src/Pipeline/Dispatch.antt =====
-- `EventPipeline` of biz/service/event_pipeline.go and its inner method
-- `dispatchToProcessorsInternal`. Each processor is served in a goroutine of its own, under a lock of
-- its own; the goroutines touch the entries of their processor only, so that a dispatch is the
-- processors' turns one after the other, in an order that is not known.
use cex_hertz_backend.Base.{
  ℕ, ℤ, pos, String, Option, none, some, List, [], ◌∷◌, ◌++◌, Dict, lookup, lookup_or, insert, leb,
  leb_ℤ, add64, if◌then◌else◌,
}
use cex_hertz_backend.Events.Types.{MatchingEngineEvent, event_seq, symbol}
use cex_hertz_backend.EventLog.Envelope.{Json}
use cex_hertz_backend.EventLog.Store.{EventStore}
use cex_hertz_backend.Pipeline.Context.{EventContext}
use cex_hertz_backend.Pipeline.Rows.{CheckpointDb}
use cex_hertz_backend.Pipeline.Checkpoints.{
  CheckpointManager, record_event_processed, flush_checkpoints,
}

-- The interface `EventProcessor`. What a processor works on is a part of the world `W`; the text is
-- that of its error, and `none` is a panic. One that blocks for ever has no answer, and is left out.
pub record Processor (W : Type 0) : Type 0 where
  pub processor_name : String
  pub process_event : MatchingEngineEvent → W → Option (W × Option String)

-- What a call reads of the outside: the time, and the order in which the goroutines get their locks.
pub record Turn (W : Type 0) : Type 0 where
  pub now : ℤ
  pub order : List (Processor W) → List (Processor W)

pub record PipelineStats : Type 0 where
  pub processed_events : ℤ
  pub failed_events : ℤ

-- m[name][symbol], a missing map reading as an empty one
abbrev pub entry_of : {V : Type 0} → V → String → String → Dict (Dict V) → V
entry_of d name sym m = lookup_or d sym (lookup_or [] name m)

-- m[name][symbol] = v, which panics, `none`, when m has no map for the name.
abbrev pub set_entry : {V : Type 0} → String → String → V → Dict (Dict V) → Option (Dict (Dict V))
set_entry name sym v m = elim (lookup name m) [
  | none ↦ none
  | some entries ↦ some (insert name (insert sym v entries) m)
]

module _ {J : Json} (S : EventStore J) (D : CheckpointDb) (W : Type 0) where
  pub record EventPipeline : Type 0 where
    pub event_log : S.Log
    pub processors : List (Processor W)
    pub processor_offsets : Dict (Dict ℕ)
    pub kafka_offsets : Dict (Dict ℤ)
    pub checkpoint_mgr : Option (CheckpointManager D)
    pub processed_event_count : ℤ
    pub failed_event_count : ℤ

  -- A dispatch under way. An error stands with the name of its processor.
  pub record Dispatching : Type 0 where
    pub pipeline : EventPipeline
    pub world : W
    pub errors : List (String × String)

  abbrev pub failed_turn : String → String → W → Dispatching → Dispatching
  failed_turn name e w s = record {
    pipeline = record (s.pipeline) {
      failed_event_count = add64 s.pipeline.failed_event_count (pos 1);
    };
    world = w;
    errors = s.errors ++ (name, e) ∷ [];
  }

  abbrev pub note_kafka :
      Option EventContext → String → String → Dict (Dict ℤ) → Option (Dict (Dict ℤ))
  note_kafka none name sym m = some m
  note_kafka (some c) name sym m =
      if leb_ℤ (pos 0) c.offset then set_entry name sym c.offset m else some m

  -- The checkpoint of a processed event. `none` is a panic: with no context the code still reads
  -- `eventCtx.StateChecksum`.
  abbrev pub note_checkpoint :
      ℤ
      → Option EventContext
      → String
      → String
      → ℕ
      → Option (CheckpointManager D)
      → Option (Option (CheckpointManager D))
  note_checkpoint now ectx name sym seq none = some none
  note_checkpoint now none name sym seq (some cm) = none
  note_checkpoint now (some c) name sym seq (some cm) = some (
      some (
        record_event_processed D now cm name sym seq c.offset c.partition c.state_checksum
          c.order_count c.trade_count))

  abbrev pub progressed :
      W → Dict (Dict ℕ) → Dict (Dict ℤ) → Option (CheckpointManager D) → Dispatching → Dispatching
  progressed w offsets kafka cm s = record s {
    pipeline = record (s.pipeline) {
      processor_offsets = offsets;
      kafka_offsets = kafka;
      checkpoint_mgr = cm;
      processed_event_count = add64 s.pipeline.processed_event_count (pos 1);
    };
    world = w;
  }

  -- The three things that are written down, or a panic of one of them.
  abbrev pub noted_down :
      Option (Dict (Dict ℕ))
      → Option (Dict (Dict ℤ))
      → Option (Option (CheckpointManager D))
      → W
      → Dispatching
      → Option Dispatching
  noted_down none kafka cm w s = none
  noted_down (some offsets) none cm w s = none
  noted_down (some offsets) (some kafka) none w s = none
  noted_down (some offsets) (some kafka) (some cm) w s = some (progressed w offsets kafka cm s)

  -- The end of a turn, by what the processor answered.
  abbrev pub answered :
      ℤ
      → Option EventContext
      → MatchingEngineEvent
      → String
      → Dispatching
      → Option (W × Option String)
      → Option Dispatching
  answered now ectx e name s none = none
  answered now ectx e name s (some (w, some error)) = some (failed_turn name error w s)
  answered now ectx e name s (some (w, none)) =
      noted_down (set_entry name (symbol e) (event_seq e) s.pipeline.processor_offsets)
        (note_kafka ectx name (symbol e) s.pipeline.kafka_offsets)
        (note_checkpoint now ectx name (symbol e) (event_seq e) s.pipeline.checkpoint_mgr) w s

  -- The body of the goroutine of `p`. `none` is a panic, which ends the process.
  unfoldable pub deliver :
      ℤ → Option EventContext → MatchingEngineEvent → Processor W → Dispatching → Option Dispatching
  deliver now ectx e p s =
      if leb (event_seq e) (entry_of 0 p.processor_name (symbol e) s.pipeline.processor_offsets)
      then some s
      else answered now ectx e p.processor_name s (p.process_event e s.world)

  unfoldable pub deliver_all :
      ℤ
      → Option EventContext
      → MatchingEngineEvent
      → List (Processor W)
      → Dispatching
      → Option Dispatching
  deliver_all now ectx e [] s = some s
  deliver_all now ectx e (p ∷ ps) s = elim (deliver now ectx e p s) [
    | none ↦ none
    | some s' ↦ deliver_all now ectx e ps s'
  ]

  abbrev pub flush_all : ℤ → EventPipeline → EventPipeline
  flush_all now ep = elim (ep.checkpoint_mgr) [
    | none ↦ ep
    | some cm ↦ record ep { checkpoint_mgr = some ((flush_checkpoints D now cm).0) }
  ]

  -- Behind `wg.Wait()`: the first error, or the flush of the checkpoints.
  abbrev pub conclude :
      ℤ → Dispatching → List (String × String) → EventPipeline × W × Option (String × String)
  conclude now s [] = (flush_all now s.pipeline, s.world, none)
  conclude now s (e ∷ es) = (s.pipeline, s.world, some e)

  unfoldable pub dispatch_to_processors :
      Turn W
      → EventPipeline
      → W
      → MatchingEngineEvent
      → Option EventContext
      → Option (EventPipeline × W × Option (String × String))
  dispatch_to_processors turn ep w e ectx =
      elim (deliver_all turn.now ectx e (turn.order ep.processors)
        (record { pipeline = ep; world = w; errors = [] })) [
          | none ↦ none
          | some s ↦ some (conclude turn.now s s.errors)
        ]
