-- ===== src/Pipeline/Crash.antt =====
-- When ProcessEvent of biz/service/event_pipeline.go panics in a pipeline with a manager of checkpoints.
use cex_hertz_backend.Base.{
  ℕ, ℤ, ◌≤◌, ◌<◌, String, true, false, Option, none, some, List, [], ◌∷◌, ◌≡◌, ◌⊎◌, ◌↔◌, refl, ap,
  ◌∙◌, arith, leb, Dict, Bool-cases, Option-cases, inl, inr,
}
use cex_hertz_backend.Events.Types.{MatchingEngineEvent, event_seq, symbol}
use cex_hertz_backend.EventLog.Envelope.{Json}
use cex_hertz_backend.EventLog.Store.{EventStore}
use cex_hertz_backend.Pipeline.Rows.{CheckpointDb}
use cex_hertz_backend.Pipeline.Checkpoints.{CheckpointManager}
use cex_hertz_backend.Pipeline.Dispatch.{
  Processor, Turn, EventPipeline, Dispatching, deliver, deliver_all, dispatch_to_processors,
  answered, note_checkpoint, noted_down, set_entry, entry_of, failed_turn,
}
use cex_hertz_backend.Pipeline.Progress.{at}
use cex_hertz_backend.Pipeline.Process.{process_event, append_and_dispatch}

-- An answer that is no error: a success, or a panic.
abbrev pub NoError : {W : Type 0} → Option (W × Option String) → Type 0
NoError {W} a = (a ≡ none) ⊎ ((w : W) × (a ≡ some (w, none)))

-- The processors take the event one after the other, from a world on. Those that have it behind them
-- and those that answer an error are passed over, and a due one answers no error.
pub data Falls {W : Type 0} (offsets : Dict (Dict ℕ)) (e : MatchingEngineEvent)
    : W → List (Processor W) → Type 0 where
  here :
      {w : W} {p : Processor W} {ps : List (Processor W)}
      → entry_of 0 p.processor_name (symbol e) offsets < event_seq e
      → NoError (p.process_event e w)
      → Falls offsets e w (p ∷ ps)
  seen :
      {w : W} {p : Processor W} {ps : List (Processor W)}
      → event_seq e ≤ entry_of 0 p.processor_name (symbol e) offsets
      → Falls offsets e w ps
      → Falls offsets e w (p ∷ ps)
  refused :
      {w w' : W} {p : Processor W} {ps : List (Processor W)} {error : String}
      → entry_of 0 p.processor_name (symbol e) offsets < event_seq e
      → p.process_event e w ≡ some (w', some error)
      → Falls offsets e w' ps
      → Falls offsets e w (p ∷ ps)

module _ {J : Json} {S : EventStore J} {D : CheckpointDb} {W : Type 0} where
  -- The panic of the checkpoint without a context, unless one comes before it.
  noted_down_panics :
      (o : Option (Dict (Dict ℕ))) (k : Option (Dict (Dict ℤ))) (w : W) (s : Dispatching S D W)
      → noted_down S D W o k none w s ≡ none
  noted_down_panics none k w s = refl
  noted_down_panics (some o) none w s = refl
  noted_down_panics (some o) (some k) w s = refl

  pub answered_panics :
      (now : ℤ) (e : MatchingEngineEvent) (name : String) (s : Dispatching S D W) (w : W)
      (cm : CheckpointManager D)
      → s.pipeline.checkpoint_mgr ≡ some cm
      → answered S D W now none e name s (some (w, none)) ≡ none
  answered_panics now e name s w cm m =
      let o = set_entry name (symbol e) (event_seq e) s.pipeline.processor_offsets in
      let k = s.pipeline.kafka_offsets in
      let no_context = ap (λ c. note_checkpoint S D W now none name (symbol e) (event_seq e) c) m in
      ap (λ c. noted_down S D W o (some k) c w s) no_context ∙ noted_down_panics o (some k) w s

  turn_panics :
      (now : ℤ) (e : MatchingEngineEvent) (name : String) (s : Dispatching S D W)
      (cm : CheckpointManager D) (a : Option (W × Option String))
      → s.pipeline.checkpoint_mgr ≡ some cm
      → NoError a
      → answered S D W now none e name s a ≡ none
  turn_panics now e name s cm a m (inl n) = rw n refl
  turn_panics now e name s cm a m (inr (w, n)) = rw n (answered_panics now e name s w cm m)

  deliver_all_panics :
      (now : ℤ) (e : MatchingEngineEvent) (cm : CheckpointManager D) (ps : List (Processor W))
      (s : Dispatching S D W)
      → s.pipeline.checkpoint_mgr ≡ some cm
      → Falls s.pipeline.processor_offsets e s.world ps
      → deliver_all S D W now none e ps s ≡ none
  unfolding deliver_all deliver
  deliver_all_panics now e cm [] s m f = elim f [ ]
  deliver_all_panics now e cm (p ∷ ps) s m (here due n) =
      let new : leb (event_seq e) (at s p.processor_name (symbol e)) ≡ false = ground arith in
      let falls = turn_panics now e p.processor_name s cm (p.process_event e s.world) m n in
      rw (deliver_all, deliver, new, falls) refl
  deliver_all_panics now e cm (p ∷ ps) s m (seen late f) =
      let skip : leb (event_seq e) (at s p.processor_name (symbol e)) ≡ true = ground arith in
      rw (deliver_all, deliver, skip) (deliver_all_panics now e cm ps s m f)
  deliver_all_panics now e cm (p ∷ ps) s m (refused {w' = w'} {error = error} due n f) =
      let new : leb (event_seq e) (at s p.processor_name (symbol e)) ≡ false = ground arith in
      rw (deliver_all, deliver, new, n)
        (deliver_all_panics now e cm ps (failed_turn S D W p.processor_name error w' s) m f)

  panics-Falls :
      (now : ℤ) (e : MatchingEngineEvent) (cm : CheckpointManager D) (ps : List (Processor W))
      (s : Dispatching S D W)
      → s.pipeline.checkpoint_mgr ≡ some cm
      → deliver_all S D W now none e ps s ≡ none
      → Falls s.pipeline.processor_offsets e s.world ps
  unfolding deliver_all deliver
  panics-Falls now e cm [] s m h = absurd (cc)
  panics-Falls now e cm (p ∷ ps) s m h =
      elim (Bool-cases (leb (event_seq e) (at s p.processor_name (symbol e)))) [
        | inl y ↦ seen (ground arith) (panics-Falls now e cm ps s m (ground arith))
        | inr n ↦
            by_answer (p.process_event e s.world) refl (ground arith)
              (λ t. panics-Falls now e cm ps t) (ground arith)
      ]
    where
      by_answer :
          (a : Option (W × Option String))
          → p.process_event e s.world ≡ a
          → entry_of 0 p.processor_name (symbol e) s.pipeline.processor_offsets < event_seq e
          → ((t : Dispatching S D W)
              → t.pipeline.checkpoint_mgr ≡ some cm
              → deliver_all S D W now none e ps t ≡ none
              → Falls t.pipeline.processor_offsets e t.world ps)
          → elim (answered S D W now none e p.processor_name s a) [
            | none ↦ none
            | some s' ↦ deliver_all S D W now none e ps s'
          ]
            ≡ none
          → Falls s.pipeline.processor_offsets e s.world (p ∷ ps)
      by_answer none q due later h = here due (inl q)
      by_answer (some (w, none)) q due later h = here due (inr (w, q))
      by_answer (some (w, some error)) q due later h =
          refused due q (later (failed_turn S D W p.processor_name error w s) m h)

  -- With a manager of checkpoints a call of ProcessEvent panics exactly when the log takes the event
  -- and, as the goroutines get their turns, one of a processor that is due, and that no panic comes
  -- before, answers no error.
  pub process_event_panics_iff :
      (turn : Turn W) (ep : EventPipeline S D W) (w : W) (e : MatchingEngineEvent)
      (cm : CheckpointManager D)
      → ep.checkpoint_mgr ≡ some cm
      → (process_event S D W turn ep w (some e) ≡ none) ↔ (
          ((S.append (some e) ep.event_log).1 ≡ true)
          × Falls ep.processor_offsets e w (turn.order ep.processors))
  unfolding process_event dispatch_to_processors
  process_event_panics_iff turn ep w e cm m =
      let l = S.append (some e) ep.event_log in
      let ep₁ : EventPipeline S D W = record ep { event_log = l.0 } in
      let s : Dispatching S D W = record { pipeline = ep₁; world = w; errors = [] } in
      let ps = turn.order ep.processors in
      (
        λ h. elim (Bool-cases l.1) [
          | inl taken ↦ elim (Option-cases (deliver_all S D W turn.now none e ps s)) [
            | inl n ↦ (taken, panics-Falls turn.now e cm ps s m n)
            | inr (t, f) ↦ absurd (ground arith)
          ]
          | inr failed ↦ absurd (ground arith)
        ],
        λ h.
            let falls = deliver_all_panics turn.now e cm ps s m h.1 in
            rw (append_and_dispatch, h.0, dispatch_to_processors, falls) refl,
      )
