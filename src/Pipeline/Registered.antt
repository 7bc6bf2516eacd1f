-- ===== src/Pipeline/Registered.antt =====
-- Processors whose maps of progress are there, as `RegisterProcessor` of biz/service/event_pipeline.go
-- makes them.
use cex_hertz_backend.Base.{
  ℕ, ℤ, pos, String, str_eq, str_eq_refl, Option, none, some, [], ◌∷◌, ◌≡◌, ◌≢◌, refl, arith, All,
  All-append, All-weaken, leb_ℤ, Dict, lookup, insert, lookup-insert, Bool-cases, Option-cases, inl,
  inr,
}
use cex_hertz_backend.Events.Types.{MatchingEngineEvent}
use cex_hertz_backend.EventLog.Envelope.{Json}
use cex_hertz_backend.EventLog.Store.{EventStore}
use cex_hertz_backend.Pipeline.Context.{EventContext}
use cex_hertz_backend.Pipeline.Rows.{CheckpointDb}
use cex_hertz_backend.Pipeline.Checkpoints.{CheckpointManager}
use cex_hertz_backend.Pipeline.Dispatch.{
  Processor, EventPipeline, note_checkpoint, note_kafka, set_entry,
}
use cex_hertz_backend.Pipeline.Process.{register_processor}

-- Each name that has a map keeps having one.
abbrev pub Grows : {V : Type 0} → Dict V → Dict V → Type 0
Grows m m' = (name : String) → lookup name m ≢ none → lookup name m' ≢ none

pub insert-Grows : {V : Type 0} (k : String) (v : V) (m : Dict V) → Grows m (insert k v m)
insert-Grows k v m name h n = elim (Bool-cases (str_eq k name)) [
  | inl y ↦ ground (arith, lookup-insert k name v m)
  | inr x ↦ h (ground (arith, lookup-insert k name v m))
]

insert_there : {V : Type 0} (k : String) (v : V) (m : Dict V) → lookup k (insert k v m) ≢ none
insert_there k v m h = ground (arith, lookup-insert k k v m, str_eq_refl k)

pub set_entry-Grows :
    {V : Type 0} (name sym' : String) (v : V) (m : Dict (Dict V))
    → lookup name m ≢ none
    → (m' : Dict (Dict V)) × (set_entry name sym' v m ≡ some m') × Grows m m'
set_entry-Grows name sym' v m h = elim (Option-cases (lookup name m)) [
  | inl n ↦ absurd (h n)
  | inr (entries, f) ↦ (
    insert name (insert sym' v entries) m,
    rw (set_entry, f) refl,
    insert-Grows name (insert sym' v entries) m,
  )
]

-- A processor with its two maps of progress.
abbrev pub HasMaps : {W : Type 0} → Dict (Dict ℕ) → Dict (Dict ℤ) → Processor W → Type 0
HasMaps offsets kafka p =
    (lookup p.processor_name offsets ≢ none) × (lookup p.processor_name kafka ≢ none)

-- A processor that never panics.
abbrev pub Steady : {W : Type 0} → Processor W → Type 0
Steady {W} p = (e : MatchingEngineEvent) (w : W) → p.process_event e w ≢ none

module _ {J : Json} (S : EventStore J) (D : CheckpointDb) (W : Type 0) where
  pub note_kafka-Grows :
      (c : EventContext) (name sym' : String) (m : Dict (Dict ℤ))
      → lookup name m ≢ none
      → (m' : Dict (Dict ℤ)) × (note_kafka S D W (some c) name sym' m ≡ some m') × Grows m m'
  note_kafka-Grows c name sym' m h = elim (Bool-cases (leb_ℤ (pos 0) c.offset)) [
    | inl y ↦ rw (y) (set_entry-Grows name sym' c.offset m h)
    | inr n ↦ rw (n) (m, refl, λ j k. k)
  ]

  pub noted :
      (now : ℤ) (c : EventContext) (name sym' : String) (seq : ℕ)
      (cm : Option (CheckpointManager D))
      → note_checkpoint S D W now (some c) name sym' seq cm ≢ none
  noted now c name sym' seq none h = cc
  noted now c name sym' seq (some cm) h = cc

module _ {J : Json} {S : EventStore J} {D : CheckpointDb} {W : Type 0} where
  -- Every processor has its two maps.
  abbrev pub Registered : EventPipeline S D W → Type 0
  Registered ep = All (HasMaps ep.processor_offsets ep.kafka_offsets) ep.processors

  pub register_processor-Registered :
      (ep : EventPipeline S D W) (p : Processor W)
      → Registered ep
      → Registered (register_processor S D W ep p)
  unfolding register_processor
  register_processor-Registered ep p r =
      let name = p.processor_name in
      All-append _ ep.processors (p ∷ [])
        (All-weaken
          (λ q h. (
            insert-Grows name [] ep.processor_offsets q.processor_name h.0,
            insert-Grows name [] ep.kafka_offsets q.processor_name h.1,
          ))
          ep.processors r)
        ((insert_there name [] ep.processor_offsets, insert_there name [] ep.kafka_offsets), tt)
