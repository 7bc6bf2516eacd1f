-- ===== src/Pipeline/Once.antt =====
-- What a dispatch of biz/service/event_pipeline.go that answers no error leaves, and what is left of an
-- event that is dispatched again.
use mathlib.Core.List.{Permᴰ}
use mathlib.Core.Path.{subst}
use cex_hertz_backend.Base.{
  All-weaken, ℤ, ◌≤◌, String, true, Option, none, some, List, [], ◌∷◌, ◌≡◌, refl, sym, ap, ◌∙◌,
  arith, All, leb, Option-cases, inl, inr,
}
use cex_hertz_backend.Events.Types.{MatchingEngineEvent, event_seq, symbol}
use cex_hertz_backend.EventLog.Envelope.{Json}
use cex_hertz_backend.EventLog.Store.{EventStore}
use cex_hertz_backend.Pipeline.Context.{EventContext}
use cex_hertz_backend.Pipeline.Rows.{CheckpointDb}
use cex_hertz_backend.Pipeline.Dispatch.{
  Processor, Turn, EventPipeline, Dispatching, deliver, deliver_all, dispatch_to_processors,
  conclude, flush_all,
}
use cex_hertz_backend.Pipeline.Process.{get_processor_offset}
use cex_hertz_backend.Pipeline.Progress.{at, Behind, highest, Served, deliver_all-Served}

pub All-Permᴰ {ℓ κ} :
    {A : Type ℓ} (P : A → Type κ) {xs ys : List A} → Permᴰ xs ys → All P xs → All P ys
All-Permᴰ P Permᴰ.nil h = h
All-Permᴰ P (Permᴰ.cons e d) h = (subst P e h.0, All-Permᴰ P d h.1)
All-Permᴰ P (Permᴰ.swap e e') h = (subst P e' h.1.0, (subst P e h.0, h.1.1))
All-Permᴰ P (Permᴰ.trans d d') h = All-Permᴰ P d' (All-Permᴰ P d h)

module _ {J : Json} {S : EventStore J} {D : CheckpointDb} {W : Type 0} where
  pub flush_all_kept :
      (now : ℤ) (ep : EventPipeline S D W)
      → ((flush_all S D W now ep).processor_offsets ≡ ep.processor_offsets)
        × ((flush_all S D W now ep).processors ≡ ep.processors)
        × ((flush_all S D W now ep).processed_event_count ≡ ep.processed_event_count)
        × ((flush_all S D W now ep).failed_event_count ≡ ep.failed_event_count)
        × ((flush_all S D W now ep).kafka_offsets ≡ ep.kafka_offsets)
  flush_all_kept now ep = elim (Option-cases ep.checkpoint_mgr) [
    | inl n ↦ rw (n) (refl, refl, refl, refl, refl)
    | inr (cm, f) ↦ rw (f) (refl, refl, refl, refl, refl)
  ]

  deliver_all_skips :
      (now : ℤ) (ectx : Option EventContext) (e : MatchingEngineEvent) (ps : List (Processor W))
      (s : Dispatching S D W)
      → All (Behind e s) ps
      → deliver_all S D W now ectx e ps s ≡ some s
  unfolding deliver_all deliver
  deliver_all_skips now ectx e [] s h = refl
  deliver_all_skips now ectx e (p ∷ ps) s h =
      let skip : leb (event_seq e) (at s p.processor_name (symbol e)) ≡ true = ground arith in
      rw (deliver_all, deliver, skip) (deliver_all_skips now ectx e ps s h.1)

  -- What a dispatch that answers no error leaves.
  pub record Dispatched (turn : Turn W) (ep : EventPipeline S D W) (w : W) (e : MatchingEngineEvent)
      (ep' : EventPipeline S D W) : Type 0 where
    pub monotone :
        (name sym' : String)
        → get_processor_offset S D W ep name sym' ≤ get_processor_offset S D W ep' name sym'
    pub at_most :
        (name sym' : String)
        → get_processor_offset S D W ep' name sym'
          ≤ highest e sym' (get_processor_offset S D W ep name sym')
    pub same_processors : ep'.processors ≡ ep.processors
    pub behind :
        All
          (λ p. event_seq e ≤ get_processor_offset S D W ep' p.processor_name (symbol e))
          (turn.order ep.processors)

  abbrev start : EventPipeline S D W → W → Dispatching S D W
  start ep w = record { pipeline = ep; world = w; errors = [] }

  ending :
      (turn : Turn W) (ep : EventPipeline S D W) (w : W) (e : MatchingEngineEvent)
      (s : Dispatching S D W) (errors : List (String × String)) (ep' : EventPipeline S D W) (w' : W)
      → errors ≡ s.errors
      → Served e (turn.order ep.processors) (start ep w) s
      → conclude S D W turn.now s errors ≡ (ep', w', none)
      → Dispatched turn ep w e ep'
  unfolding get_processor_offset
  ending turn ep w e s [] ep' w' n served h =
      let kept = flush_all_kept turn.now s.pipeline in
      let flushed : flush_all S D W turn.now s.pipeline ≡ ep' = ap (λ r. r.0) h in
      let offsets = ap (λ t. t.processor_offsets) (sym flushed) ∙ kept.0 in
      record {
        monotone = λ name sym'. rw offsets (served.monotone name sym');
        at_most = λ name sym'. rw offsets (served.at_most name sym');
        same_processors = ap (λ t. t.processors) (sym flushed) ∙ kept.1 ∙ served.same_processors;
        behind = rw offsets ((served.behind (sym n)).1);
      }
  ending turn ep w e s (x ∷ xs) ep' w' n served h = absurd (ground arith)

  pub dispatch_to_processors-Dispatched :
      (turn : Turn W) (ep : EventPipeline S D W) (w : W) (e : MatchingEngineEvent)
      (ectx : Option EventContext) (ep' : EventPipeline S D W) (w' : W)
      → dispatch_to_processors S D W turn ep w e ectx ≡ some (ep', w', none)
      → Dispatched turn ep w e ep'
  unfolding dispatch_to_processors
  dispatch_to_processors-Dispatched turn ep w e ectx ep' w' h =
      elim (Option-cases
        (deliver_all S D W turn.now ectx e (turn.order ep.processors) (start ep w))) [
          | inl n ↦ absurd (ground arith)
          | inr (s, f) ↦
              let served =
                deliver_all-Served turn.now ectx e (turn.order ep.processors) (start ep w) s f in
              ending turn ep w e s s.errors ep' w' refl served (ground arith)
        ]

  -- A dispatch of an event that all processors have behind them answers no error and only flushes the
  -- checkpoints.
  dispatch_skips :
      (turn : Turn W) (ep : EventPipeline S D W) (w : W) (e : MatchingEngineEvent)
      (ectx : Option EventContext)
      → All (Behind e (start ep w)) (turn.order ep.processors)
      → dispatch_to_processors S D W turn ep w e ectx ≡ some (flush_all S D W turn.now ep, w, none)
  unfolding dispatch_to_processors
  dispatch_skips turn ep w e ectx h =
      rw
        (
          dispatch_to_processors,
          deliver_all_skips turn.now ectx e (turn.order ep.processors) (start ep w) h,
        )
        refl

  -- Once an event was dispatched to the registered processors, in any order, and no error came back,
  -- a dispatch of an event of the same symbol with that number or a lower one calls no processor and
  -- answers no error: the world, the progress and the Kafka offsets of all processors and the counters
  -- are as they were, and all that is done is a flush of the checkpoints.
  pub dispatch_to_processors_again :
      (turn turn' : Turn W) (ep ep' : EventPipeline S D W) (w w' : W) (e e' : MatchingEngineEvent)
      (ectx ectx' : Option EventContext)
      → Permᴰ (turn.order ep.processors) ep.processors
      → Permᴰ ep'.processors (turn'.order ep'.processors)
      → dispatch_to_processors S D W turn ep w e ectx ≡ some (ep', w', none)
      → symbol e' ≡ symbol e
      → event_seq e' ≤ event_seq e
      → (ep'' : EventPipeline S D W) × (dispatch_to_processors S D W turn' ep' w' e' ectx'
          ≡ some (ep'', w', none))
        × (ep'' ≡ flush_all S D W turn'.now ep')
        × (ep''.kafka_offsets ≡ ep'.kafka_offsets)
        × (ep''.processor_offsets ≡ ep'.processor_offsets)
        × (ep''.processed_event_count ≡ ep'.processed_event_count)
        × (ep''.failed_event_count ≡ ep'.failed_event_count)
  unfolding get_processor_offset
  dispatch_to_processors_again turn turn' ep ep' w w' e e' ectx ectx' all all' h same lower =
      let d = dispatch_to_processors-Dispatched turn ep w e ectx ep' w' h in
      let P : Processor W → Type 0 =
        λ p. event_seq e ≤ get_processor_offset S D W ep' p.processor_name (symbol e) in
      let Q : Processor W → Type 0 =
        λ p. event_seq e' ≤ get_processor_offset S D W ep' p.processor_name (symbol e') in
      let registered : All P ep'.processors =
        subst (λ ps. All P ps) (sym d.same_processors) (All-Permᴰ P all d.behind) in
      let weaker : (p : Processor W) → P p → Q p = λ p b. rw (same) (omega arith) in
      let kept = flush_all_kept turn'.now ep' in
      (
        flush_all S D W turn'.now ep',
        dispatch_skips turn' ep' w' e' ectx'
            (All-Permᴰ Q all' (All-weaken weaker ep'.processors registered)),
        refl,
        kept.4,
        kept.0,
        kept.2,
        kept.3,
      )
