-- ===== src/Offsets/Invariant.antt =====
-- The order of the offsets in biz/service/kafka_offset_tracker.go, after any calls.
use cex_hertz_backend.Base.{
  ℕ, ℤ, pos, String, Bool, true, none, some, List, [], ◌∷◌, ◌≡◌, ◌↔◌, refl, sym, ap, ◌∙◌, arith,
  ltb_ℤ, ◌≤ℤ◌, sub64_exact, IsInt64, if◌then◌else◌, -ℤ_parts,
}
use cex_hertz_backend.Offsets.Tracker.{
  OffsetTracker, Checkpoint, new_offset_tracker, track_consumed_offset, checkpoint_of,
  commit_offset, get_consumer_lag, verify_offset_consistency, update_kafka_producer_offset,
}

-- A call of the tracker, with what Postgres answers and the moment.
pub data Call : Type 0 where
  track_consumed : ℤ → Call
  commit : (Checkpoint → Bool) → ℤ → ℕ → ℕ → Call
  update_produced : ℤ → Call
  read_lag : Call

abbrev pub step : OffsetTracker → Call → OffsetTracker
step t (track_consumed offset) = track_consumed_offset t offset
step t (commit save offset seq now) = (commit_offset save t offset seq now).0
step t (update_produced offset) = update_kafka_producer_offset t offset
step t read_lag = (get_consumer_lag t).0

abbrev pub run : OffsetTracker → List Call → OffsetTracker
run t [] = t
run t (c ∷ cs) = run (step t c) cs

abbrev max_ℤ : ℤ → ℤ → ℤ
max_ℤ a b = if ltb_ℤ a b then b else a

-- The highest offset of the calls that consume, from `a` on, and that of those that produce.
abbrev pub highest_consumed : ℤ → List Call → ℤ
highest_consumed a [] = a
highest_consumed a (track_consumed offset ∷ cs) = highest_consumed (max_ℤ a offset) cs
highest_consumed a (commit save offset seq now ∷ cs) = highest_consumed a cs
highest_consumed a (update_produced offset ∷ cs) = highest_consumed a cs
highest_consumed a (read_lag ∷ cs) = highest_consumed a cs

abbrev pub highest_produced : ℤ → List Call → ℤ
highest_produced a [] = a
highest_produced a (track_consumed offset ∷ cs) = highest_produced a cs
highest_produced a (commit save offset seq now ∷ cs) = highest_produced a cs
highest_produced a (update_produced offset ∷ cs) = highest_produced (max_ℤ a offset) cs
highest_produced a (read_lag ∷ cs) = highest_produced a cs

step-committed :
    (t : OffsetTracker) (c : Call)
    → t.committed_offset ≤ℤ t.consumed_offset
    → (step t c).committed_offset ≤ℤ (step t c).consumed_offset
unfolding track_consumed_offset commit_offset update_kafka_producer_offset get_consumer_lag
step-committed t (track_consumed offset) h = ground arith
step-committed t (commit save offset seq now) h = ground arith
step-committed t (update_produced offset) h = ground arith
step-committed t read_lag h = ground arith

run-committed :
    (t : OffsetTracker) (cs : List Call)
    → t.committed_offset ≤ℤ t.consumed_offset
    → (run t cs).committed_offset ≤ℤ (run t cs).consumed_offset
run-committed t [] h = h
run-committed t (c ∷ cs) h = run-committed (step t c) cs (step-committed t c h)

step-highest :
    (t : OffsetTracker) (c : Call)
    → ((step t c).consumed_offset ≡ highest_consumed t.consumed_offset (c ∷ []))
      × ((step t c).kafka_producer_offset ≡ highest_produced t.kafka_producer_offset (c ∷ []))
unfolding track_consumed_offset commit_offset update_kafka_producer_offset get_consumer_lag
step-highest t (track_consumed offset) = ground arith
step-highest t (commit save offset seq now) = ground arith
step-highest t (update_produced offset) = ground arith
step-highest t read_lag = ground arith

highest-cons :
    (a b : ℤ) (c : Call) (cs : List Call)
    → (highest_consumed a (c ∷ cs) ≡ highest_consumed (highest_consumed a (c ∷ [])) cs)
      × (highest_produced b (c ∷ cs) ≡ highest_produced (highest_produced b (c ∷ [])) cs)
highest-cons a b (track_consumed offset) cs = (refl, refl)
highest-cons a b (commit save offset seq now) cs = (refl, refl)
highest-cons a b (update_produced offset) cs = (refl, refl)
highest-cons a b read_lag cs = (refl, refl)

run-highest :
    (t : OffsetTracker) (cs : List Call)
    → ((run t cs).consumed_offset ≡ highest_consumed t.consumed_offset cs)
      × ((run t cs).kafka_producer_offset ≡ highest_produced t.kafka_producer_offset cs)
run-highest t [] = (refl, refl)
run-highest t (c ∷ cs) =
    let now = step-highest t c in
    let later = run-highest (step t c) cs in
    let split = highest-cons t.consumed_offset t.kafka_producer_offset c cs in
    (
      later.0 ∙ ap (λ a. highest_consumed a cs) now.0 ∙ sym split.0,
      later.1 ∙ ap (λ a. highest_produced a cs) now.1 ∙ sym split.1,
    )

-- After any calls on a new tracker the committed offset is not above the consumed one, and the
-- consumed and the produced offsets are the highest that the tracker was told, or 0.
pub run-new_offset_tracker :
    (symbol processor : String) (moment : ℕ) (cs : List Call)
    → let t = run (new_offset_tracker symbol processor moment) cs in
      (t.committed_offset ≤ℤ t.consumed_offset)
      × (t.consumed_offset ≡ highest_consumed (pos 0) cs)
      × (t.kafka_producer_offset ≡ highest_produced (pos 0) cs)
unfolding new_offset_tracker
run-new_offset_tracker symbol processor moment cs =
    let t = new_offset_tracker symbol processor moment in
    let h = run-highest t cs in (run-committed t cs (omega arith), h.0, h.1)

-- CommitOffset succeeds exactly when the offset is not above the consumed one and Postgres saves
-- the checkpoint. Then the offset is the committed one; otherwise the committed offset stays. The
-- consumed offset stays in both cases.
pub commit_offset_iff :
    (save : Checkpoint → Bool) (t : OffsetTracker) (offset : ℤ) (seq now : ℕ)
    → ((commit_offset save t offset seq now).1 ≡ none
        ↔ ((offset ≤ℤ t.consumed_offset) × (save (checkpoint_of t offset seq) ≡ true)))
      × ((commit_offset save t offset seq now).0.committed_offset
          ≡ elim (commit_offset save t offset seq now).1 [
            | none ↦ offset
            | some e ↦ t.committed_offset
          ])
      × ((commit_offset save t offset seq now).0.consumed_offset ≡ t.consumed_offset)
unfolding commit_offset
commit_offset_iff save t offset seq now = ground arith

-- With a produced offset of 64 bits and a committed one that is not negative, the consistency check
-- finds nothing exactly when committed, consumed and produced offsets are in order.
verify_offset_consistency_iff :
    (t : OffsetTracker)
    → IsInt64 t.kafka_producer_offset
    → pos 0 ≤ℤ t.committed_offset
    → (verify_offset_consistency t ≡ none)
      ↔ ((t.committed_offset ≤ℤ t.consumed_offset) × (t.consumed_offset ≤ℤ t.kafka_producer_offset))
unfolding verify_offset_consistency
verify_offset_consistency_iff t wide low = (
  λ h. ground arith,
  λ h.
      let p = t.kafka_producer_offset in
      let c = t.committed_offset in
      ground (arith, sub64_exact p c wide low (omega arith), -ℤ_parts p c),
)
