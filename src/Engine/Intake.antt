-- ===== src/Engine/Intake.antt =====
-- When `SubmitOrder` of biz/service/match_engine.go panics in an engine as
-- NewPartitionAwareMatchEngine makes it, whose pipeline has a manager of checkpoints.
use cex_hertz_backend.Base.{
  String, str_eq, str_eq_iff, true, false, ◌||◌, none, some, List, [], ◌≡◌, ◌≢◌, ◌↔◌, refl, sym,
  ◌∙◌, arith, lookup_or, Bool-cases, Option-cases, inl, inr,
}
use cex_hertz_backend.Events.Types.{submitted}
use cex_hertz_backend.EventLog.Envelope.{Json}
use cex_hertz_backend.EventLog.Store.{EventStore}
use cex_hertz_backend.Sequencer.{next_global_seq}
use cex_hertz_backend.Book.Levels.{SkipList}
use cex_hertz_backend.Book.Types.{OrderBookEntry, Float64, Comparable}
use cex_hertz_backend.Pipeline.Rows.{CheckpointDb}
use cex_hertz_backend.Pipeline.Checkpoints.{CheckpointManager}
use cex_hertz_backend.Pipeline.Process.{Result, process_event}
use cex_hertz_backend.Pipeline.Crash.{Falls, process_event_panics_iff}
use cex_hertz_backend.Engine.Types.{SubmitOrderMsg, Outside, MatchEngine}
use cex_hertz_backend.Engine.Submit.{
  panicked, submit_order, enqueue_order, send, with_order_id, submitted_event, submitted_to,
}

given_iff :
    (a b c : String)
    → ((str_eq a "" || str_eq b "" || str_eq c "") ≡ false) ↔ ((a ≢ "") × (b ≢ "") × (c ≢ ""))
given_iff a b c = ground (arith, str_eq_iff a "", str_eq_iff b "", str_eq_iff c "")

module _ {J : Json} {S : EventStore J} {D : CheckpointDb} {W : Type 0} {F : Float64}
    (L : SkipList (List OrderBookEntry) (Comparable F)) where
  enqueue_order_ends :
      (env : Outside W) (me : MatchEngine S D W L) (order : SubmitOrderMsg)
      → enqueue_order S D W L env me order ≢ panicked
  unfolding enqueue_order
  enqueue_order_ends env me order h = elim (Bool-cases env.shutting_down) [
    | inl y ↦ ground arith
    | inr n ↦ elim (Option-cases (send (lookup_or [] order.symbol me.order_queues) order)) [
      | inl x ↦ ground arith
      | inr (q, f) ↦ ground arith
    ]
  ]

  submitted_to_panics_iff :
      (env : Outside W) (me : MatchEngine S D W L) (order : SubmitOrderMsg) (r : Result S D W)
      → (submitted_to S D W L env me order r ≡ panicked) ↔ (r ≡ none)
  submitted_to_panics_iff env me order none = (λ h. refl, λ h. refl)
  submitted_to_panics_iff env me order (some (ep, w, some error)) = (λ h. cc, λ h. absurd (cc))
  submitted_to_panics_iff env me order (some (ep, w, none)) = (
    λ h. absurd (enqueue_order_ends env (record me { event_pipeline = ep; world = w }) order h),
    λ h. absurd (cc),
  )

  -- In an engine whose pipeline has a manager of checkpoints a call of SubmitOrder panics exactly when
  -- the order has a symbol, a side and a user, the log takes its event, and, as the goroutines get
  -- their turns, a due processor that no panic comes before answers no error to the event.
  pub submit_order_panics_iff :
      (env : Outside W) (me : MatchEngine S D W L) (order : SubmitOrderMsg)
      (cm : CheckpointManager D)
      → me.event_pipeline.checkpoint_mgr ≡ some cm
      → let named = with_order_id env.nanos me.sequencer order in
        let e = submitted (submitted_event env (next_global_seq named.0).1 named.1) in
        (submit_order S D W L env me order ≡ panicked) ↔ (
          (order.symbol ≢ "")
          × (order.side ≢ "")
          × (order.user_id ≢ "")
          × ((S.append (some e) me.event_pipeline.event_log).1 ≡ true)
          × Falls me.event_pipeline.processor_offsets e me.world
              (env.turn.order me.event_pipeline.processors))
  unfolding submit_order
  submit_order_panics_iff env me order cm m =
      let named = with_order_id env.nanos me.sequencer order in
      let drawn = next_global_seq named.0 in
      let e = submitted (submitted_event env drawn.1 named.1) in
      let run = process_event S D W env.turn me.event_pipeline me.world (some e) in
      let falls = process_event_panics_iff env.turn me.event_pipeline me.world e cm m in
      let me₁ : MatchEngine S D W L = record me { sequencer = drawn.0 } in
      let ends = submitted_to_panics_iff env me₁ named.1 run in
      let fields = given_iff order.symbol order.side order.user_id in
      elim (Bool-cases
        (str_eq order.symbol "" || str_eq order.side "" || str_eq order.user_id "")) [
          | inl y ↦
              (λ h. absurd (ground arith), λ h. let clash = fields.1 (h.0, h.1, h.2) in absurd (cc))
          | inr n ↦
              let g = fields.0 n in
              let same : submit_order S D W L env me order
                  ≡ submitted_to S D W L env me₁ named.1 run =
                rw (submit_order, n) refl in
              (
                λ h. let r = falls.0 (ends.0 (sym same ∙ h)) in (g.0, g.1, g.2, r.0, r.1),
                λ h. same ∙ ends.1 (falls.1 (h.3, h.4)),
              )
        ]
