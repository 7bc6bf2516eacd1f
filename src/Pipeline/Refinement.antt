-- ===== src/Pipeline/Refinement.antt =====
-- The progress that biz/service/event_pipeline.go keeps, against the events that it was given.
use mathlib.Core.List.{Permᴰ}
use mathlib.Core.Path.{subst}
use cex_hertz_backend.Base.{
  ℕ, ◌≤◌, String, str_eq, str_eq_iff, Option, none, some, List, [], ◌∷◌, ◌≡◌, refl, ap, ◌∙◌, arith,
  All, Bool-cases, inl, inr,
}
use cex_hertz_backend.Events.Types.{MatchingEngineEvent, event_seq, symbol}
use cex_hertz_backend.EventLog.Envelope.{Json}
use cex_hertz_backend.EventLog.Store.{EventStore}
use cex_hertz_backend.Pipeline.Context.{EventContext}
use cex_hertz_backend.Pipeline.Rows.{CheckpointDb}
use cex_hertz_backend.Pipeline.Dispatch.{Processor, Turn, EventPipeline, dispatch_to_processors}
use cex_hertz_backend.Pipeline.Process.{get_processor_offset}
use cex_hertz_backend.Pipeline.Progress.{highest}
use cex_hertz_backend.Pipeline.Once.{All-Permᴰ, Dispatched, dispatch_to_processors-Dispatched}

All-of {ℓ κ} : {A : Type ℓ} {P : A → Type κ} → ((x : A) → P x) → (xs : List A) → All P xs
All-of f [] = tt
All-of f (x ∷ xs) = (f x, All-of f xs)

All-zip {ℓ κ} :
    {A : Type ℓ} {P Q R : A → Type κ}
    → ((x : A) → P x → Q x → R x)
    → (xs : List A) → All P xs
    → All Q xs
    → All R xs
All-zip f [] h k = tt
All-zip f (x ∷ xs) h k = (f x h.0 k.0, All-zip f xs h.1 k.1)

-- The highest number of a symbol among some events, or `n`.
abbrev pub highest_of : List MatchingEngineEvent → String → ℕ → ℕ
highest_of [] sym' n = n
highest_of (e ∷ es) sym' n = highest_of es sym' (highest e sym' n)

module _ {J : Json} {S : EventStore J} {D : CheckpointDb} {W : Type 0} where
  -- Dispatches one after another, none of which answers an error, each with an order of the
  -- registered processors.
  pub data Run
      : EventPipeline S D W → W → List MatchingEngineEvent → EventPipeline S D W → W → Type 0 where
    done : {ep : EventPipeline S D W} {w : W} → Run ep w [] ep w
    next :
        {ep ep' ep'' : EventPipeline S D W} {w w' w'' : W} {e : MatchingEngineEvent}
        {es : List MatchingEngineEvent} (turn : Turn W) (ectx : Option EventContext)
        → Permᴰ (turn.order ep.processors) ep.processors
        → dispatch_to_processors S D W turn ep w e ectx ≡ some (ep', w', none)
        → Run ep' w' es ep'' w''
        → Run ep w (e ∷ es) ep'' w''

  -- After dispatches without an error, each registered processor's progress in each symbol is the
  -- highest number of an event of the symbol among those dispatched, or what it was before where
  -- that is higher.
  pub Run-highest_of :
      {ep ep' : EventPipeline S D W} {w w' : W} {es : List MatchingEngineEvent}
      → Run ep w es ep' w'
      → (sym' : String)
      → All
          (λ p.
            get_processor_offset S D W ep' p.processor_name sym'
            ≡ highest_of es sym' (get_processor_offset S D W ep p.processor_name sym'))
          ep.processors
  Run-highest_of done sym' = All-of (λ p. refl) _
  Run-highest_of
        (next {ep = ep} {ep' = ep'} {ep'' = ep''} {w = w} {w' = w'} {e = e} {es = es} turn ectx all
          h rest)
        sym' =
      let d = dispatch_to_processors-Dispatched turn ep w e ectx ep' w' h in
      let Seen : Processor W → Type 0 =
        λ p. event_seq e ≤ get_processor_offset S D W ep' p.processor_name (symbol e) in
      let Later : Processor W → Type 0 = λ p.
        get_processor_offset S D W ep'' p.processor_name sym'
        ≡ highest_of es sym' (get_processor_offset S D W ep' p.processor_name sym') in
      let later : All Later ep.processors =
        subst (λ ps. All Later ps) d.same_processors (Run-highest_of rest sym') in
      All-zip (λ p seen l. l ∙ ap (λ n. highest_of es sym' n) (exact p.processor_name d seen))
        ep.processors (All-Permᴰ Seen all d.behind) later
    where
      exact :
          (name : String)
          → Dispatched turn ep w e ep'
          → event_seq e ≤ get_processor_offset S D W ep' name (symbol e)
          → get_processor_offset S D W ep' name sym'
            ≡ highest e sym' (get_processor_offset S D W ep name sym')
      exact name d seen =
          let up = d.monotone name sym' in
          let down = d.at_most name sym' in
          elim (Bool-cases (str_eq (symbol e) sym')) [
            | inl y ↦
                let same : symbol e ≡ sym' = (str_eq_iff (symbol e) sym').0 y in
                let seen' : event_seq e ≤ get_processor_offset S D W ep' name sym' =
                  rw⁻¹ (same) seen in
                ground arith
            | inr n ↦ ground arith
          ]
