-- ===== src/Pipeline/Returns.antt =====
-- Which pipelines of biz/service/event_pipeline.go always come to an answer: those whose processors were
-- registered, so that the maps of their progress are there, and do not panic themselves.
use mathlib.Core.List.{Permᴰ}
use mathlib.Core.Path.{subst}
use cex_hertz_backend.Base.{
  ℤ, String, Option, none, some, List, [], ◌∷◌, ◌≡◌, ◌≢◌, refl, sym, ◌∙◌, All, All-weaken, leb,
  Bool-cases, Option-cases, inl, inr,
}
use cex_hertz_backend.Events.Types.{MatchingEngineEvent, event_seq, symbol}
use cex_hertz_backend.EventLog.Envelope.{Json}
use cex_hertz_backend.EventLog.Store.{EventStore}
use cex_hertz_backend.Pipeline.Context.{EventContext, is_valid}
use cex_hertz_backend.Pipeline.Rows.{CheckpointDb}
use cex_hertz_backend.Pipeline.Dispatch.{
  Processor, Turn, EventPipeline, Dispatching, deliver, deliver_all, dispatch_to_processors,
  answered, note_checkpoint, conclude,
}
use cex_hertz_backend.Pipeline.Process.{
  PipelineError, process_event_with_context, append_and_dispatch, with_event,
}
use cex_hertz_backend.Pipeline.Progress.{at}
use cex_hertz_backend.Pipeline.Once.{All-Permᴰ, flush_all_kept}
use cex_hertz_backend.Pipeline.Registered.{
  Grows, set_entry-Grows, HasMaps, Steady, note_kafka-Grows, noted, Registered,
}

module _ {J : Json} {S : EventStore J} {D : CheckpointDb} {W : Type 0} where
  -- What the turns leave of the maps.
  record Kept (s s' : Dispatching S D W) : Type 0 where
    pub offsets : Grows s.pipeline.processor_offsets s'.pipeline.processor_offsets
    pub kafka : Grows s.pipeline.kafka_offsets s'.pipeline.kafka_offsets
    pub processors : s'.pipeline.processors ≡ s.pipeline.processors

  deliver_returns :
      (now : ℤ) (c : EventContext) (e : MatchingEngineEvent) (p : Processor W)
      (s : Dispatching S D W)
      → Steady p
      → HasMaps s.pipeline.processor_offsets s.pipeline.kafka_offsets p
      → (s' : Dispatching S D W) × (deliver S D W now (some c) e p s ≡ some s') × Kept s s'
  unfolding deliver
  deliver_returns now c e p s steady maps =
      elim (Bool-cases (leb (event_seq e) (at s p.processor_name (symbol e)))) [
        | inl y ↦
            rw (deliver, y)
              (s, refl, record { offsets = λ j k. k; kafka = λ j k. k; processors = refl })
        | inr n ↦ rw (deliver, n) (answer (p.process_event e s.world) (steady e s.world))
      ]
    where
      answer :
          (a : Option (W × Option String))
          → a ≢ none
          → (s' : Dispatching S D W) × (answered S D W now (some c) e p.processor_name s a
              ≡ some s')
            × Kept s s'
      answer none h = absurd (h refl)
      answer (some (w, some error)) h =
          (_, refl, record { offsets = λ j k. k; kafka = λ j k. k; processors = refl })
      answer (some (w, none)) h =
          let name = p.processor_name in
          let (o, set, grown) =
            set_entry-Grows name (symbol e) (event_seq e) s.pipeline.processor_offsets maps.0 in
          let (k, kept, grown') =
            note_kafka-Grows S D W c name (symbol e) s.pipeline.kafka_offsets maps.1 in
          let cm = s.pipeline.checkpoint_mgr in
          elim (Option-cases
            (note_checkpoint S D W now (some c) name (symbol e) (event_seq e) cm)) [
              | inl n ↦ absurd (noted S D W now c name (symbol e) (event_seq e) cm n)
              | inr (cm', f) ↦
                  rw (set, kept, f)
                    (_, refl, record { offsets = grown; kafka = grown'; processors = refl })
            ]

  deliver_all_returns :
      (now : ℤ) (c : EventContext) (e : MatchingEngineEvent) (ps : List (Processor W))
      (s : Dispatching S D W)
      → All Steady ps
      → All (HasMaps s.pipeline.processor_offsets s.pipeline.kafka_offsets) ps
      → (s' : Dispatching S D W) × (deliver_all S D W now (some c) e ps s ≡ some s') × Kept s s'
  unfolding deliver_all
  deliver_all_returns now c e [] s steady maps =
      (s, refl, record { offsets = λ j k. k; kafka = λ j k. k; processors = refl })
  deliver_all_returns now c e (p ∷ ps) s steady maps =
      let (t, run, a) = deliver_returns now c e p s steady.0 maps.0 in
      let still =
        All-weaken (λ q h. (a.offsets q.processor_name h.0, a.kafka q.processor_name h.1)) ps
          maps.1 in
      let (u, rest, b) = deliver_all_returns now c e ps t steady.1 still in
      (
        u,
        rw (deliver_all, run) rest,
        record {
          offsets = λ j k. b.offsets j (a.offsets j k);
          kafka = λ j k. b.kafka j (a.kafka j k);
          processors = b.processors ∙ a.processors;
        },
      )

  conclude-Registered :
      (now : ℤ) (s : Dispatching S D W) (errors : List (String × String))
      → Registered s.pipeline
      → Registered (conclude S D W now s errors).0
  conclude-Registered now s (x ∷ xs) r = r
  conclude-Registered now s [] r = elim (Option-cases s.pipeline.checkpoint_mgr) [
    | inl n ↦ rw (n) r
    | inr (cm, f) ↦ rw (f) r
  ]

  conclude_processors :
      (now : ℤ) (s : Dispatching S D W) (errors : List (String × String))
      → (conclude S D W now s errors).0.processors ≡ s.pipeline.processors
  conclude_processors now s (x ∷ xs) = refl
  conclude_processors now s [] = (flush_all_kept now s.pipeline).1

  dispatch_returns :
      (turn : Turn W) (ep : EventPipeline S D W) (w : W) (e : MatchingEngineEvent)
      (c : EventContext)
      → Permᴰ ep.processors (turn.order ep.processors)
      → All Steady ep.processors
      → Registered ep
      → (ep' : EventPipeline S D W) × (w' : W) × (error : Option (String × String))
        × (dispatch_to_processors S D W turn ep w e (some c) ≡ some (ep', w', error))
        × Registered ep'
        × (ep'.processors ≡ ep.processors)
  unfolding dispatch_to_processors
  dispatch_returns turn ep w e c all steady r =
      let s : Dispatching S D W = record { pipeline = ep; world = w; errors = [] } in
      let maps = HasMaps ep.processor_offsets ep.kafka_offsets in
      let (t, run, kept) =
        deliver_all_returns turn.now c e (turn.order ep.processors) s (All-Permᴰ Steady all steady)
          (All-Permᴰ maps all r) in
      let still : Registered t.pipeline =
        subst (λ ps. All (HasMaps t.pipeline.processor_offsets t.pipeline.kafka_offsets) ps)
          (sym kept.processors)
          (All-weaken (λ q h. (kept.offsets q.processor_name h.0, kept.kafka q.processor_name h.1))
            ep.processors r) in
      rw (dispatch_to_processors, run)
        (
          _,
          _,
          _,
          refl,
          conclude-Registered turn.now t t.errors still,
          conclude_processors turn.now t t.errors ∙ kept.processors,
        )

  -- Of a pipeline whose processors were registered and never panic, whatever order their goroutines
  -- take: ProcessEventWithContext comes to an answer for every context, also for a nil one, and leaves
  -- such a pipeline.
  pub process_event_with_context_returns :
      (turn : Turn W) (ep : EventPipeline S D W) (w : W) (c : Option EventContext)
      → Permᴰ ep.processors (turn.order ep.processors)
      → All Steady ep.processors
      → Registered ep
      → (ep' : EventPipeline S D W) × (w' : W) × (error : Option PipelineError)
        × (process_event_with_context S D W turn ep w c ≡ some (ep', w', error))
        × Registered ep'
        × (ep'.processors ≡ ep.processors)
  unfolding process_event_with_context
  process_event_with_context_returns turn ep w none all steady r = (_, _, _, refl, r, refl)
  process_event_with_context_returns turn ep w (some c) all steady r =
      elim (Bool-cases (is_valid c)) [
        | inl y ↦ rw (y) (by_event c.event)
        | inr x ↦ rw (x) (_, _, _, refl, r, refl)
      ]
    where
      by_event :
          (x : Option MatchingEngineEvent)
          → (ep' : EventPipeline S D W) × (w' : W) × (error : Option PipelineError) × (with_event S
                D W turn ep w c x
              ≡ some (ep', w', error))
            × Registered ep'
            × (ep'.processors ≡ ep.processors)
      by_event none = (_, _, _, refl, r, refl)
      by_event (some e) =
          let l = S.append (some e) ep.event_log in
          let ep₁ : EventPipeline S D W = record ep { event_log = l.0 } in
          elim (Bool-cases l.1) [
            | inl taken ↦
                let (ep', w', error, run, reg, same) =
                  dispatch_returns turn ep₁ w e c all steady r in
                rw (append_and_dispatch, taken, run) (_, _, _, refl, reg, same)
            | inr failed ↦ rw (append_and_dispatch, failed) (_, _, _, refl, r, refl)
          ]
