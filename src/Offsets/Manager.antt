-- ===== src/Offsets/Manager.antt =====
-- `OffsetTrackerManager` of biz/service/kafka_offset_tracker.go.
use Prim.Native.String.{◌++◌}
use text.Mathlib.TextLemmas.{append_assoc}
use cex_hertz_backend.Base.{
  ℕ, String, Option, none, some, [], ◌∷◌, Dict, All, ◌↔◌, ◌≡◌, refl, sym, ◌∙◌, ap, arith, lookup,
  insert, lookup-insert, if◌then◌else◌, Option-cases, inl, inr, str_eq_refl,
}
use cex_hertz_backend.Offsets.Tracker.{
  OffsetTracker, Inconsistency, new_offset_tracker, verify_offset_consistency,
}

pub record OffsetTrackerManager : Type 0 where
  pub trackers : Dict OffsetTracker

unfoldable pub new_offset_tracker_manager : OffsetTrackerManager
new_offset_tracker_manager = record { trackers = [] }

-- "processorName:symbol"
unfoldable pub tracker_key : String → String → String
tracker_key processor symbol = processor ++ (":" ++ symbol)

unfoldable pub get_or_create_tracker :
    OffsetTrackerManager → String → String → ℕ → OffsetTrackerManager × OffsetTracker
get_or_create_tracker m processor symbol now =
    elim (lookup (tracker_key processor symbol) m.trackers) [
      | some t ↦ (m, t)
      | none ↦
          let t = new_offset_tracker symbol processor now in
          (record { trackers = insert (tracker_key processor symbol) t m.trackers }, t)
    ]

-- The loop of VerifyAllConsistency, over the trackers in some order.
unfoldable pub verify_all_consistency : Dict OffsetTracker → Option (OffsetTracker × Inconsistency)
verify_all_consistency [] = none
verify_all_consistency ((k, t) ∷ ts) =
    let rest = verify_all_consistency ts in
    elim (verify_offset_consistency t) [ none ↦ rest | some e ↦ some (t, e) ]

stored :
    (m : OffsetTrackerManager) (processor symbol : String) (now : ℕ)
    → let first = get_or_create_tracker m processor symbol now in
      lookup (tracker_key processor symbol) first.0.trackers ≡ some first.1
unfolding get_or_create_tracker
stored m processor symbol now =
    let key = tracker_key processor symbol in
    elim (Option-cases (lookup key m.trackers)) [
      | inl n ↦
          let t = new_offset_tracker symbol processor now in
          rw (get_or_create_tracker, n)
            (lookup-insert key key t m.trackers
              ∙ ap (λ b. if b then some t else lookup key m.trackers) (str_eq_refl key))
      | inr (t, f) ↦ rw (get_or_create_tracker, f) f
    ]

found :
    (m : OffsetTrackerManager) (processor symbol : String) (t : OffsetTracker) (now : ℕ)
    → lookup (tracker_key processor symbol) m.trackers ≡ some t
    → get_or_create_tracker m processor symbol now ≡ (m, t)
unfolding get_or_create_tracker
found m processor symbol t now f = rw (get_or_create_tracker, f) refl

-- A tracker that was got or created is the one that every later call with its names gets.
get_or_create_tracker_again :
    (m : OffsetTrackerManager) (processor symbol : String) (now later : ℕ)
    → let first = get_or_create_tracker m processor symbol now in
      get_or_create_tracker first.0 processor symbol later ≡ first
get_or_create_tracker_again m processor symbol now later =
    found _ processor symbol _ later (stored m processor symbol now)

-- Names that hold a colon can share a tracker: once processor `a:b` has one for symbol `c`, the
-- call with processor `a` and symbol `b:c` gets the same one.
get_or_create_tracker_shared :
    (m : OffsetTrackerManager) (a b c : String) (now later : ℕ)
    → let first = get_or_create_tracker m (a ++ (":" ++ b)) c now in
      get_or_create_tracker first.0 a (b ++ (":" ++ c)) later ≡ first
unfolding tracker_key
get_or_create_tracker_shared m a b c now later =
    let first = get_or_create_tracker m (a ++ (":" ++ b)) c now in
    let same : (a ++ (":" ++ b)) ++ (":" ++ c) ≡ a ++ (":" ++ (b ++ (":" ++ c))) =
      append_assoc a (":" ++ b) (":" ++ c) ∙ ap (λ t. a ++ t) (append_assoc ":" b (":" ++ c)) in
    found _ a (b ++ (":" ++ c)) _ later
      (ap (λ key. lookup key first.0.trackers) (sym same) ∙ stored m (a ++ (":" ++ b)) c now)

-- VerifyAllConsistency finds nothing exactly when every tracker is consistent.
verify_all_consistency_iff :
    (ts : Dict OffsetTracker)
    → (verify_all_consistency ts ≡ none) ↔ All (λ kt. verify_offset_consistency kt.1 ≡ none) ts
unfolding verify_all_consistency
verify_all_consistency_iff [] = (λ h. tt, λ h. refl)
verify_all_consistency_iff ((k, t) ∷ ts) =
    let rest = verify_all_consistency_iff ts in
    elim (Option-cases (verify_offset_consistency t)) [
      | inl n ↦ rw (verify_all_consistency, n) (λ h. (refl, rest.0 h), λ h. rest.1 h.1)
      | inr (e, f) ↦
          rw (verify_all_consistency, f) (λ h. absurd (ground arith), λ h. absurd (ground arith))
    ]
