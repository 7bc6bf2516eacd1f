-- ===== src/Pipeline/Resume.antt =====
-- Where a recovery starts: the checkpoints of biz/dal/pg/checkpoint_repo.go, saved and read back.
use cex_hertz_backend.Base.{
  ◌+◌, ◌%◌, ◌^◌, ℤ, pos, String, str_eq, true, ◌||◌, none, some, ◌≡◌, refl, ap, arith, add64,
  Bool-cases, Option-cases, inl, inr,
}
use cex_hertz_backend.Pipeline.Rows.{
  EventOffsetCheckpoint, RecoveryContext, CheckpointDb, KeepsProgress, save_checkpoint,
  get_recovery_context, get_checkpoint_summary, get_latest_checkpoint,
}

module _ (D : CheckpointDb) where
  -- Of a database that keeps the progress of a row that it took: when a checkpoint was saved, the
  -- recovery of its processor and symbol starts at the number behind the checkpoint's and at the
  -- offset behind the checkpoint's, both in 64 bits, and compares with the checkpoint's checksum.
  pub get_recovery_context-save_checkpoint :
      (now later : ℤ) (r : EventOffsetCheckpoint) (t : D.Table)
      → KeepsProgress D
      → (save_checkpoint D now r t).1 ≡ true
      → (c : RecoveryContext) × (get_recovery_context D later r.processor_name r.symbol
            (save_checkpoint D now r t).0
          ≡ some c)
        × (c.start_event_seq ≡ (r.event_seq + 1) % 2 ^ 64)
        × (c.start_kafka_offset ≡ add64 r.kafka_offset (pos 1))
        × (c.pre_crash_checksum ≡ r.state_checksum)
  unfolding save_checkpoint get_recovery_context get_checkpoint_summary get_latest_checkpoint
  get_recovery_context-save_checkpoint now later r t keeps saved =
      elim (Bool-cases (str_eq r.processor_name "" || str_eq r.symbol "")) [
        | inl y ↦ absurd (ground arith)
        | inr n ↦
            let stamped : EventOffsetCheckpoint = record r { timestamp = now } in
            let done : (D.upsert stamped t).1 ≡ true = ground arith in
            let k = keeps.first-upsert stamped t done in
            rw
              (
                save_checkpoint, n, get_recovery_context, get_checkpoint_summary,
                get_latest_checkpoint, k.1,
              )
              (_, refl, ap (λ s. (s + 1) % 2 ^ 64) k.2, ap (λ o. add64 o (pos 1)) k.3, k.4)
      ]

  -- A recovery's context never names a topic, and starts in partition 0 with no counts.
  pub get_recovery_context_bare :
      (now : ℤ) (processor name : String) (t : D.Table) (c : RecoveryContext)
      → get_recovery_context D now processor name t ≡ some c
      → (c.topic ≡ "")
        × (c.partition ≡ pos 0)
        × (c.expected_order_count ≡ pos 0)
        × (c.expected_trade_count ≡ pos 0)
  unfolding get_recovery_context
  get_recovery_context_bare now processor name t c h =
      elim (Option-cases (get_checkpoint_summary D now processor name t)) [
        | inl n ↦ absurd (ground arith)
        | inr (none, f) ↦ ground arith
        | inr (some s, f) ↦ ground arith
      ]
