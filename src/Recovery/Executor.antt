-- ===== src/Recovery/Executor.antt =====
-- `RecoveryExecutor` of biz/service/recovery_executor.go, as main.go builds it: its manager of
-- checkpoints and its event log are those of the pipeline. The items of a recovery, which run in
-- goroutines of their own, are taken one after another. `none` of a result is a panic.
use cex_hertz_backend.Base.{
  ℕ, suc, ℤ, pos, String, Bool, true, false, Option, none, some, List, [], ◌∷◌, add64,
  if◌then◌else◌,
}
use cex_hertz_backend.Events.Types.{MatchingEngineEvent}
use cex_hertz_backend.EventLog.Envelope.{
  Json, EventEnvelope, decoded, nil, bad_payload, unmarshal_event,
}
use cex_hertz_backend.EventLog.Store.{EventStore}
use cex_hertz_backend.Pipeline.Context.{new_event_context, with_ownership_epoch, print_int}
use cex_hertz_backend.Pipeline.Rows.{CheckpointDb, RecoveryContext, get_recovery_context}
use cex_hertz_backend.Pipeline.Checkpoints.{
  CheckpointManager, Mismatch, validate_recovery, calculate_state_checksum,
}
use cex_hertz_backend.Pipeline.Dispatch.{EventPipeline, Turn}
use cex_hertz_backend.Pipeline.Process.{PipelineError, process_event_with_context}
use cex_hertz_backend.Recovery.Lock.{Tries, Acquired, Outcome, ran, refused, with_recovery_lock}

pub data RecoveryStrategy : Type 0 where
  full_replay incremental : RecoveryStrategy

pub record RecoveryOptions : Type 0 where
  pub strategy : RecoveryStrategy
  pub processor_names : List String
  pub symbols : List String
  pub validate_after_recovery : Bool
  pub timeout : ℤ
  pub max_retries : ℤ

-- What a call with nil options uses. The time is in milliseconds.
unfoldable pub default_options : RecoveryOptions
default_options = record {
  strategy = RecoveryStrategy.incremental;
  processor_names = [];
  symbols = [];
  validate_after_recovery = true;
  timeout = pos 300000;
  max_retries = pos 3;
}

pub data RecoveryError : Type 0 where
  already_in_progress list_unreadable context_unreadable events_unreadable timed_out : RecoveryError
  lock_refused : Acquired → RecoveryError
  not_processed : PipelineError → RecoveryError
  state_differs : Mismatch → RecoveryError

pub record RecoveryResult : Type 0 where
  pub processor_name : String
  pub symbol : String
  pub recovery_start : ℤ
  pub recovery_end : ℤ
  pub events_replayed : ℤ
  pub orders_restored : ℤ
  pub trades_restored : ℤ
  pub pre_crash_checksum : String
  pub post_recovery_checksum : String
  pub is_valid : Bool
  pub validation_error : Option RecoveryError

pub record RecoveryStats : Type 0 where
  pub total_recovery_time : ℤ
  pub processors_recovered : ℤ
  pub events_processed : ℤ
  pub state_validated : Bool
  pub last_recovery_time : ℤ

pub record RecoveryItem : Type 0 where
  pub processor_name : String
  pub symbol : String

abbrev pub empty_result : ℤ → String → String → RecoveryResult
empty_result start processor name = record {
  processor_name = processor;
  symbol = name;
  recovery_start = start;
  recovery_end = pos 0;
  events_replayed = pos 0;
  orders_restored = pos 0;
  trades_restored = pos 0;
  pre_crash_checksum = "";
  post_recovery_checksum = "";
  is_valid = false;
  validation_error = none;
}

-- What a recovery reads of the outside: the times of its start and its end, the locks, whether its
-- context has ended before the event of a position, and the texts that its checksum is made of.
pub record Outside (W : Type 0) : Type 0 where
  pub turn : Turn W
  pub start : ℤ
  pub end_time : ℤ
  pub tries : String → String → Tries
  pub cancelled : ℕ → Bool
  pub hash : String → String
  pub order_book_text : String → W → String
  pub positions_text : W → String

module _ {J : Json} (S : EventStore J) (D : CheckpointDb) (W : Type 0) where
  -- Whether it has a manager of locks and an event log.
  pub record RecoveryExecutor : Type 0 where
    pub has_lock_mgr : Bool
    pub has_event_log : Bool
    pub stats : RecoveryStats
    pub last_recovery_time : ℤ
    pub is_recovering : Bool

  -- Of one item: the pipeline, the world, the result and the error.
  abbrev pub Recovered : Type 0
  Recovered = Option (EventPipeline S D W × W × RecoveryResult × Option RecoveryError)

  -- The events of the envelopes. Those that cannot be read are skipped, those of an unknown type are
  -- nil.
  unfoldable pub events_of : List (EventEnvelope J) → List (Option MatchingEngineEvent)
  events_of [] = []
  events_of (v ∷ vs) = elim (unmarshal_event J v) [
    | bad_payload ↦ events_of vs
    | nil ↦ none ∷ events_of vs
    | decoded e ↦ some e ∷ events_of vs
  ]

  -- `eventLog` may be nil. `none` is an error.
  unfoldable pub events_to_replay :
      RecoveryExecutor
      → EventPipeline S D W
      → RecoveryContext
      → Option (List (Option MatchingEngineEvent))
  unfolding events_of
  events_to_replay re ep c =
      if re.has_event_log
      then elim (S.events_of c.symbol c.start_event_seq (pos 1000) ep.event_log) [
        | none ↦ none
        | some vs ↦ some (events_of vs)
      ]
      else some []

  abbrev pub failed_event :
      EventPipeline S D W
      → W
      → ℕ
      → PipelineError
      → Option MatchingEngineEvent
      → Option (EventPipeline S D W × W × ℕ × Option RecoveryError)
  failed_event ep w count error none = none
  failed_event ep w count error (some e) = some (ep, w, count, some (not_processed error))

  -- The loop over the events, behind `count` of them. The report of a failure asks the event for its
  -- number, which panics for a nil event.
  unfoldable pub replay_events :
      Outside W
      → RecoveryContext
      → ℤ
      → ℕ
      → List (Option MatchingEngineEvent)
      → EventPipeline S D W
      → W
      → Option (EventPipeline S D W × W × ℕ × Option RecoveryError)
  replay_events env c offset count [] ep w = some (ep, w, count, none)
  replay_events env c offset count (e ∷ es) ep w =
      let ectx =
        with_ownership_epoch (new_event_context env.start e c.topic c.partition offset) (pos 1)
          "recovery" in
      elim (env.cancelled count) [
        | true ↦ some (ep, w, count, some timed_out)
        | false ↦ elim (process_event_with_context S D W env.turn ep w (some ectx)) [
          | none ↦ none
          | some (ep', w', some error) ↦ failed_event ep' w' count error e
          | some (ep', w', none) ↦ replay_events env c (add64 offset (pos 1)) (suc count) es ep' w'
        ]
      ]

  -- The result behind a replay of `count` events. The checksum is that of the state now.
  abbrev pub validated :
      Outside W → RecoveryOptions → RecoveryContext → ℕ → W → RecoveryResult → RecoveryResult
  validated env opts c count w r =
      let r' : RecoveryResult = record r {
        pre_crash_checksum = c.pre_crash_checksum;
        events_replayed = pos count;
        orders_restored = c.expected_order_count;
        trades_restored = c.expected_trade_count;
        recovery_end = env.end_time;
      } in
      let post =
        calculate_state_checksum env.hash (env.order_book_text r.symbol w) (env.positions_text w)
          (print_int env.end_time) in
      let found =
        validate_recovery c.pre_crash_checksum post c.expected_order_count c.expected_order_count
          c.expected_trade_count c.expected_trade_count in
      if opts.validate_after_recovery
      then record r' {
        post_recovery_checksum = post;
        is_valid = passes found;
        validation_error = difference found;
      }
      else record r' { is_valid = true }
    where
      passes : Option Mismatch → Bool
      passes none = true
      passes (some m) = false

      difference : Option Mismatch → Option RecoveryError
      difference none = none
      difference (some m) = some (state_differs m)

  abbrev replayed :
      Outside W
      → RecoveryOptions
      → RecoveryContext
      → RecoveryResult
      → Option (EventPipeline S D W × W × ℕ × Option RecoveryError)
      → Recovered
  replayed env opts c r none = none
  replayed env opts c r (some (ep, w, count, some error)) =
      some (ep, w, record r { pre_crash_checksum = c.pre_crash_checksum }, some error)
  replayed env opts c r (some (ep, w, count, none)) =
      some (ep, w, validated env opts c count w r, none)

  -- The function under the lock. The mark of its end stamps the context, which is dropped.
  unfoldable pub recover_locked :
      Outside W
      → RecoveryExecutor
      → RecoveryItem
      → RecoveryOptions
      → CheckpointManager D
      → EventPipeline S D W
      → W
      → RecoveryResult
      → Recovered
  unfolding replay_events events_to_replay
  recover_locked env re item opts cm ep w r =
      elim (get_recovery_context D env.start item.processor_name item.symbol cm.table) [
        | none ↦ some (ep, w, r, some context_unreadable)
        | some c ↦ elim (events_to_replay re ep c) [
          | none ↦ some (
            ep,
            w,
            record r { pre_crash_checksum = c.pre_crash_checksum },
            some events_unreadable,
          )
          | some es ↦ replayed env opts c r (replay_events env c c.start_kafka_offset 0 es ep w)
        ]
      ]

  abbrev behind_lock : EventPipeline S D W → W → RecoveryResult → Outcome Recovered → Recovered
  behind_lock ep w r (ran body) = body
  behind_lock ep w r (refused why) = some (ep, w, r, some (lock_refused why))

  -- A nil manager of locks, and a nil manager of checkpoints, panic.
  unfoldable pub recover_single_processor :
      Outside W
      → RecoveryExecutor
      → RecoveryItem
      → RecoveryOptions
      → EventPipeline S D W
      → W
      → Recovered
  unfolding recover_locked
  recover_single_processor env re item opts ep w =
      let r = empty_result env.start item.processor_name item.symbol in
      let body : Recovered = elim (ep.checkpoint_mgr) [
        | none ↦ none
        | some cm ↦ recover_locked env re item opts cm ep w r
      ] in
      if re.has_lock_mgr
      then behind_lock ep w r (with_recovery_lock (env.tries item.processor_name item.symbol) body)
      else none
