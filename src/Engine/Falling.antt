-- ===== src/Engine/Falling.antt =====
-- The trades of a match in biz/service/match_engine.go, as a pipeline with a manager of checkpoints takes
-- their events.
use mathlib.Core.Path.{subst}
use cex_hertz_backend.Base.{
  ℤ, pos, add64, String, true, Option, none, some, List, [], ◌∷◌, ◌≡◌, ◌≢◌, sym, ◌∙◌, arith, leb,
  Bool-cases, Option-cases, inl, inr,
}
use cex_hertz_backend.Events.Types.{
  MatchingEngineEvent, event_seq, symbol, TradeExecutedEvent, executed,
}
use cex_hertz_backend.EventLog.Envelope.{Json}
use cex_hertz_backend.EventLog.Store.{EventStore}
use cex_hertz_backend.Pipeline.Rows.{CheckpointDb}
use cex_hertz_backend.Pipeline.Dispatch.{
  Processor, Turn, EventPipeline, Dispatching, deliver, deliver_all, dispatch_to_processors,
  answered, conclude,
}
use cex_hertz_backend.Pipeline.Process.{PipelineError, process_event}
use cex_hertz_backend.Pipeline.Progress.{at}
use cex_hertz_backend.Pipeline.Crash.{Falls, answered_panics}

module _ {J : Json} {S : EventStore J} {D : CheckpointDb} {W : Type 0} where
  abbrev pub Managed : EventPipeline S D W → Type 0
  Managed ep = ep.checkpoint_mgr ≢ none

  deliver-Managed :
      (now : ℤ) (e : MatchingEngineEvent) (p : Processor W) (s t : Dispatching S D W)
      → Managed s.pipeline
      → deliver S D W now none e p s ≡ some t
      → Managed t.pipeline
  unfolding deliver
  deliver-Managed now e p s t m h =
      elim (Bool-cases (leb (event_seq e) (at s p.processor_name (symbol e)))) [
        | inl y ↦ let same : s ≡ t = ground arith in subst (λ u. Managed u.pipeline) same m
        | inr n ↦ answer (p.process_event e s.world) (ground arith)
      ]
    where
      some_inj : {a b : Dispatching S D W} → some a ≡ some b → a ≡ b
      some_inj q = cc

      clash : {a : Dispatching S D W} → none ≢ some a
      clash q = cc

      answer :
          (a : Option (W × Option String))
          → answered S D W now none e p.processor_name s a ≡ some t
          → Managed t.pipeline
      answer none h = absurd (cc)
      answer (some (w, some error)) h = subst (λ u. Managed u.pipeline) (some_inj h) m
      answer (some (w, none)) h = elim (Option-cases s.pipeline.checkpoint_mgr) [
        | inl n ↦ absurd (m n)
        | inr (cm, f) ↦ absurd (clash (sym (answered_panics now e p.processor_name s w cm f) ∙ h))
      ]

  deliver_all-Managed :
      (now : ℤ) (e : MatchingEngineEvent) (ps : List (Processor W)) (s t : Dispatching S D W)
      → Managed s.pipeline
      → deliver_all S D W now none e ps s ≡ some t
      → Managed t.pipeline
  unfolding deliver_all
  deliver_all-Managed now e [] s t m h =
      let same : s ≡ t = cc in subst (λ u. Managed u.pipeline) same m
  deliver_all-Managed now e (p ∷ ps) s t m h = elim (Option-cases (deliver S D W now none e p s)) [
    | inl n ↦ absurd (ground arith)
    | inr (u, f) ↦ deliver_all-Managed now e ps u t (deliver-Managed now e p s u m f) (ground arith)
  ]

  conclude-Managed :
      (now : ℤ) (s : Dispatching S D W) (errors : List (String × String))
      → Managed s.pipeline
      → Managed (conclude S D W now s errors).0
  conclude-Managed now s (x ∷ xs) m = m
  conclude-Managed now s [] m = elim (Option-cases s.pipeline.checkpoint_mgr) [
    | inl n ↦ absurd (m n)
    | inr (cm, f) ↦ rw (f) (λ h. cc)
  ]

  -- A call that ends leaves a manager in place.
  pub process_event-Managed :
      (turn : Turn W) (ep ep' : EventPipeline S D W) (w w' : W) (e : MatchingEngineEvent)
      (error : Option PipelineError)
      → Managed ep
      → process_event S D W turn ep w (some e) ≡ some (ep', w', error)
      → Managed ep'
  unfolding process_event dispatch_to_processors
  process_event-Managed turn ep ep' w w' e error m h =
      let l = S.append (some e) ep.event_log in
      let ep₁ : EventPipeline S D W = record ep { event_log = l.0 } in
      let s : Dispatching S D W = record { pipeline = ep₁; world = w; errors = [] } in
      elim (Bool-cases l.1) [
        | inl taken ↦
            elim (Option-cases (deliver_all S D W turn.now none e (turn.order ep.processors) s)) [
              | inl n ↦ absurd (ground arith)
              | inr (t, f) ↦
                  let kept =
                    conclude-Managed turn.now t t.errors
                      (deliver_all-Managed turn.now e (turn.order ep.processors) s t m f) in
                  let same : (conclude S D W turn.now t t.errors).0 ≡ ep' = ground arith in
                  subst (λ u. Managed u) same kept
            ]
        | inr failed ↦
            let same : record ep₁ { failed_event_count = add64 ep.failed_event_count (pos 1) }
                ≡ ep' =
              ground arith in
            subst (λ u. Managed u) same m
      ]

  -- The trades of a match, one after the other: those whose call ends are passed over, and at one of
  -- them the log takes the event and a processor answers no error.
  pub data Falling (turn : Turn W)
      : EventPipeline S D W → W → List TradeExecutedEvent → Type 0 where
    falls_now :
        {ep : EventPipeline S D W} {w : W} {e : TradeExecutedEvent} {es : List TradeExecutedEvent}
        → (S.append (some (executed e)) ep.event_log).1 ≡ true
        → Falls ep.processor_offsets (executed e) w (turn.order ep.processors)
        → Falling turn ep w (e ∷ es)
    falls_later :
        {ep ep' : EventPipeline S D W} {w w' : W} {e : TradeExecutedEvent}
        {es : List TradeExecutedEvent} {error : Option PipelineError}
        → process_event S D W turn ep w (some (executed e)) ≡ some (ep', w', error)
        → Falling turn ep' w' es
        → Falling turn ep w (e ∷ es)

  pub Falling-at :
      {turn : Turn W} {ep ep' : EventPipeline S D W} {w w' : W} {es : List TradeExecutedEvent}
      → ep ≡ ep'
      → w ≡ w'
      → Falling turn ep w es
      → Falling turn ep' w' es
  Falling-at {turn} {ep} {ep'} {w} {w'} {es} p q f =
      subst (λ u. Falling turn ep' u es) q (subst (λ u. Falling turn u w es) p f)

  -- Behind a trade whose call has ended.
  pub Falling-later :
      {turn : Turn W} {ep ep' : EventPipeline S D W} {w w' : W} {e : TradeExecutedEvent}
      {es : List TradeExecutedEvent} {error : Option PipelineError}
      → ((S.append (some (executed e)) ep.event_log).1 ≡ true
          → Falls ep.processor_offsets (executed e) w (turn.order ep.processors)
          → process_event S D W turn ep w (some (executed e)) ≡ none)
      → process_event S D W turn ep w (some (executed e)) ≡ some (ep', w', error)
      → Falling turn ep w (e ∷ es)
      → Falling turn ep' w' es
  Falling-later panics run (falls_now a b) = absurd (clash (sym (panics a b) ∙ run))
    where
      clash : {A : Type 0} {x : A} → none ≢ some x
      clash q = cc
  Falling-later panics run (falls_later run' f) =
      let both = some_pair (sym run' ∙ run) in Falling-at both.0 both.1 f
    where
      some_pair :
          {A B C : Type 0} {a a' : A} {b b' : B} {c c' : C}
          → ◌≡◌ {A = Option (A × B × C)} (some (a, b, c)) (some (a', b', c'))
          → (a ≡ a') × (b ≡ b')
      some_pair q = (cc, cc)
