-- ===== src/Recovery/Outcome.antt =====
-- What a recovery of biz/service/recovery_executor.go achieves.
use cex_hertz_backend.Base.{
  ℕ, ℤ, pos, str_eq, str_eq_iff, Bool, true, false, Option, none, some, List, [], ◌∷◌, ◌≡◌, ◌≢◌,
  refl, sym, ap, ◌∙◌, arith, Bool-cases, Option-cases, inl, inr,
}
use cex_hertz_backend.Events.Types.{MatchingEngineEvent}
use cex_hertz_backend.EventLog.Envelope.{Json}
use cex_hertz_backend.EventLog.Store.{EventStore}
use cex_hertz_backend.Pipeline.Context.{
  EventContext, is_valid, new_event_context, with_ownership_epoch,
}
use cex_hertz_backend.Pipeline.Rows.{CheckpointDb, RecoveryContext, get_recovery_context}
use cex_hertz_backend.Pipeline.Checkpoints.{CheckpointManager}
use cex_hertz_backend.Pipeline.Resume.{get_recovery_context_bare}
use cex_hertz_backend.Pipeline.Dispatch.{EventPipeline, Turn}
use cex_hertz_backend.Pipeline.Process.{PipelineError, process_event_with_context}
use cex_hertz_backend.Recovery.Lock.{with_recovery_lock-cases}
use cex_hertz_backend.Recovery.Executor.{
  RecoveryOptions, RecoveryError, RecoveryResult, RecoveryItem, RecoveryExecutor, Outside,
  Recovered, replay_events, recover_locked, recover_single_processor, empty_result, validated,
  events_to_replay, failed_event,
}

module _ {J : Json} (S : EventStore J) (D : CheckpointDb) (W : Type 0) where
  validated_replayed :
      (env : Outside W) (opts : RecoveryOptions) (c : RecoveryContext) (count : ℕ) (w : W)
      (r : RecoveryResult)
      → (validated S D W env opts c count w r).events_replayed ≡ pos count
  validated_replayed env opts c count w r = elim (Bool-cases opts.validate_after_recovery) [
    | inl y ↦ rw (y) refl
    | inr n ↦ rw (n) refl
  ]

module _ {J : Json} {S : EventStore J} {D : CheckpointDb} {W : Type 0} where
  no_topic_invalid :
      (turn : Turn W) (ep : EventPipeline S D W) (w : W) (c : EventContext)
      → c.topic ≡ ""
      → process_event_with_context S D W turn ep w (some c)
        ≡ some (ep, w, some PipelineError.context_invalid)
  unfolding process_event_with_context is_valid
  no_topic_invalid turn ep w c h =
      let blank : str_eq c.topic "" ≡ true = (str_eq_iff c.topic "").1 h in
      let invalid : is_valid c ≡ false = ground arith in
      rw (process_event_with_context, invalid) refl

  -- How a replay of at least one event ends in a context without a topic.
  abbrev stopped :
      EventPipeline S D W
      → W
      → ℕ
      → Bool
      → Option MatchingEngineEvent
      → Option (EventPipeline S D W × W × ℕ × Option RecoveryError)
  stopped ep w count true e = some (ep, w, count, some RecoveryError.timed_out)
  stopped ep w count false none = none
  stopped ep w count false (some e) =
      some (ep, w, count, some (RecoveryError.not_processed PipelineError.context_invalid))

  replay_events-stopped :
      (env : Outside W) (c : RecoveryContext) (offset : ℤ) (count : ℕ)
      (e : Option MatchingEngineEvent) (es : List (Option MatchingEngineEvent))
      (ep : EventPipeline S D W) (w : W)
      → c.topic ≡ ""
      → replay_events S D W env c offset count (e ∷ es) ep w
        ≡ stopped ep w count (env.cancelled count) e
  unfolding replay_events new_event_context with_ownership_epoch
  replay_events-stopped env c offset count e es ep w h =
      let ectx =
        with_ownership_epoch (new_event_context env.start e c.topic c.partition offset) (pos 1)
          "recovery" in
      let invalid = no_topic_invalid env.turn ep w ectx h in
      elim (Bool-cases (env.cancelled count)) [
        | inl y ↦ rw (replay_events, y) refl
        | inr n ↦ rw (replay_events, n, invalid) (by_event e)
      ]
    where
      by_event :
          (e : Option MatchingEngineEvent)
          → failed_event S D W ep w count PipelineError.context_invalid e
            ≡ stopped ep w count false e
      by_event none = refl
      by_event (some e) = refl

  stopped_same :
      (ep ep' : EventPipeline S D W) (w w' : W) (count count' : ℕ) (b : Bool)
      (e : Option MatchingEngineEvent) (error : Option RecoveryError)
      → stopped ep w count b e ≡ some (ep', w', count', error)
      → (ep' ≡ ep) × (w' ≡ w) × (error ≢ none)
  stopped_same ep ep' w w' count count' true e error h =
      (ground arith, ground arith, λ n. absurd (ground arith))
  stopped_same ep ep' w w' count count' false none error h = absurd (ground arith)
  stopped_same ep ep' w w' count count' false (some e) error h =
      (ground arith, ground arith, λ n. absurd (ground arith))

  -- A replay in a context without a topic leaves the pipeline and the world as they were, and
  -- succeeds only for no events.
  replay_events_no_topic :
      (env : Outside W) (c : RecoveryContext) (offset : ℤ) (es : List (Option MatchingEngineEvent))
      (ep ep' : EventPipeline S D W) (w w' : W) (count' : ℕ) (error : Option RecoveryError)
      → c.topic ≡ ""
      → replay_events S D W env c offset 0 es ep w ≡ some (ep', w', count', error)
      → (ep' ≡ ep) × (w' ≡ w) × (error ≡ none → (es ≡ []) × (count' ≡ 0))
  unfolding replay_events
  replay_events_no_topic env c offset [] ep ep' w w' count' error h r =
      (ground arith, ground arith, λ n. (refl, ground arith))
  replay_events_no_topic env c offset (e ∷ es) ep ep' w w' count' error h r =
      let s =
        stopped_same ep ep' w w' 0 count' (env.cancelled 0) e error
          (sym (replay_events-stopped env c offset 0 e es ep w h) ∙ r) in
      (s.0, s.1, λ n. absurd (s.2 n))

  -- Nothing was replayed, and nothing changed.
  pub record Idle (ep ep' : EventPipeline S D W) (w w' : W) (r : RecoveryResult)
      (error : Option RecoveryError) : Type 0 where
    pub same_pipeline : ep' ≡ ep
    pub same_world : w' ≡ w
    pub none_replayed : error ≡ none → r.events_replayed ≡ pos 0

  recover_locked-Idle :
      (env : Outside W) (re : RecoveryExecutor S D W) (i : RecoveryItem) (opts : RecoveryOptions)
      (cm : CheckpointManager D) (ep ep' : EventPipeline S D W) (w w' : W) (r r' : RecoveryResult)
      (error : Option RecoveryError)
      → recover_locked S D W env re i opts cm ep w r ≡ some (ep', w', r', error)
      → Idle ep ep' w w' r' error
  unfolding recover_locked
  recover_locked-Idle env re i opts cm ep ep' w w' r r' error h =
      elim (Option-cases (get_recovery_context D env.start i.processor_name i.symbol cm.table)) [
        | inl n ↦ record {
          same_pipeline = ground arith;
          same_world = ground arith;
          none_replayed = λ x. absurd (ground arith);
        }
        | inr (c, f) ↦ elim (Option-cases (events_to_replay S D W re ep c)) [
          | inl n ↦ record {
            same_pipeline = ground arith;
            same_world = ground arith;
            none_replayed = λ x. absurd (ground arith);
          }
          | inr (es, g) ↦
              elim (Option-cases (replay_events S D W env c c.start_kafka_offset 0 es ep w)) [
                | inl n ↦ absurd (ground arith)
                | inr ((ep₁, w₁, count, none), p) ↦
                    let s =
                      replay_events_no_topic env c c.start_kafka_offset es ep ep₁ w w₁ count none
                        (topic c f) p in
                    let same : r' ≡ validated S D W env opts c count w₁ r = ground arith in
                    let a : ep' ≡ ep₁ = ground arith in
                    let b : w' ≡ w₁ = ground arith in
                    record {
                      same_pipeline = a ∙ s.0;
                      same_world = b ∙ s.1;
                      none_replayed = λ n.
                          ap (λ x. x.events_replayed) same
                          ∙ validated_replayed S D W env opts c count w₁ r
                          ∙ ap pos ((s.2 refl).1);
                    }
                | inr ((ep₁, w₁, count, some x), p) ↦
                    let s =
                      replay_events_no_topic env c c.start_kafka_offset es ep ep₁ w w₁ count
                        (some x) (topic c f) p in
                    let a : ep' ≡ ep₁ = ground arith in
                    let b : w' ≡ w₁ = ground arith in
                    record {
                      same_pipeline = a ∙ s.0;
                      same_world = b ∙ s.1;
                      none_replayed = λ n. absurd (ground arith);
                    }
              ]
        ]
      ]
    where
      topic :
          (c : RecoveryContext)
          → get_recovery_context D env.start i.processor_name i.symbol cm.table ≡ some c
          → c.topic ≡ ""
      topic c f = (get_recovery_context_bare D env.start i.processor_name i.symbol cm.table c f).0

  pub recover_single_processor-Idle :
      (env : Outside W) (re : RecoveryExecutor S D W) (i : RecoveryItem) (opts : RecoveryOptions)
      (ep ep' : EventPipeline S D W) (w w' : W) (r' : RecoveryResult) (error : Option RecoveryError)
      → recover_single_processor S D W env re i opts ep w ≡ some (ep', w', r', error)
      → Idle ep ep' w w' r' error
  unfolding recover_single_processor
  recover_single_processor-Idle env re i opts ep ep' w w' r' error h =
      elim (Bool-cases re.has_lock_mgr) [
        | inr n ↦ absurd (ground arith)
        | inl y ↦
            elim (with_recovery_lock-cases (env.tries i.processor_name i.symbol)
              (body ep.checkpoint_mgr)) [
                | inl e ↦ elim (Option-cases ep.checkpoint_mgr) [
                  | inl n ↦ absurd (ground arith)
                  | inr (cm, f) ↦
                      recover_locked-Idle env re i opts cm ep ep' w w' start r' error (ground arith)
                ]
                | inr (why, e) ↦ record {
                  same_pipeline = ground arith;
                  same_world = ground arith;
                  none_replayed = λ x. absurd (ground arith);
                }
              ]
      ]
    where
      start : RecoveryResult
      start = empty_result env.start i.processor_name i.symbol

      body : Option (CheckpointManager D) → Recovered S D W
      body none = none
      body (some cm) = recover_locked S D W env re i opts cm ep w start
