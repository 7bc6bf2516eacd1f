-- ===== src/Pipeline/Checkpoints.antt =====
-- `CheckpointManager` of biz/service/checkpoint_manager.go.
use Prim.Native.String.{◌++◌}
use cex_hertz_backend.Base.{
  ℕ, ℤ, String, str_eq, Bool, true, false, Option, none, some, List, [], ◌∷◌, map, Dict, lookup,
  insert, eq_ℤ, if◌then◌else◌,
}
use cex_hertz_backend.Pipeline.Rows.{
  EventOffsetCheckpoint, RecoveryContext, CheckpointDb, save_checkpoint, save_recovery_result,
  list_pending_rows,
}

pub data Mismatch : Type 0 where
  checksum_mismatch : String → String → Mismatch
  order_count_mismatch trade_count_mismatch : ℤ → ℤ → Mismatch

-- `none` is a recovery that is valid.
unfoldable pub validate_recovery : String → String → ℤ → ℤ → ℤ → ℤ → Option Mismatch
validate_recovery pre post expected_orders actual_orders expected_trades actual_trades =
    if str_eq pre post
    then (if eq_ℤ expected_orders actual_orders
        then (if eq_ℤ expected_trades actual_trades
            then none
            else some (trade_count_mismatch expected_trades actual_trades))
        else some (order_count_mismatch expected_orders actual_orders))
    else some (checksum_mismatch pre post)

-- `hash` is the hexadecimal MD5 of a text, and the texts are those of `%v` and `%d`.
unfoldable pub calculate_state_checksum : (String → String) → String → String → String → String
calculate_state_checksum hash order_book positions millis =
    hash
      ("orderbook:" ++ (order_book ++ ("|positions:" ++ (positions ++ ("|timestamp:" ++ millis)))))

module _ (D : CheckpointDb) where
  -- The map is keyed by "processor:symbol". The table is that of the repository.
  pub record CheckpointManager : Type 0 where
    pub table : D.Table
    pub checkpoints : Dict EventOffsetCheckpoint

  unfoldable pub new_checkpoint_manager : D.Table → CheckpointManager
  new_checkpoint_manager t = record { table = t; checkpoints = [] }

  abbrev pub checkpoint_key : String → String → String
  checkpoint_key processor name = processor ++ (":" ++ name)

  unfoldable pub record_event_processed :
      ℤ → CheckpointManager → String → String → ℕ → ℤ → ℤ → String → ℤ → ℤ → CheckpointManager
  record_event_processed now cm processor name seq offset partition checksum orders trades =
      record cm {
        checkpoints =
            insert (checkpoint_key processor name)
              (record {
                processor_name = processor;
                symbol = name;
                event_seq = seq;
                kafka_offset = offset;
                partition_id = partition;
                timestamp = now;
                state_checksum = checksum;
                order_count = orders;
                trade_count = trades;
                recovery_status = "";
                recovery_start_time = none;
                recovery_end_time = none;
                recovery_error = "";
              })
              cm.checkpoints;
      }

  unfoldable pub get_current_checkpoint :
      CheckpointManager → String → String → Option EventOffsetCheckpoint
  get_current_checkpoint cm processor name = lookup (checkpoint_key processor name) cm.checkpoints

  -- The loop of FlushCheckpoints, which ends at the first row that is not saved. The rows that were
  -- tried are stamped.
  unfoldable pub flush_rows :
      ℤ → Dict EventOffsetCheckpoint → D.Table → D.Table × Bool × Dict EventOffsetCheckpoint
  flush_rows now [] t = (t, true, [])
  flush_rows now ((k, r) ∷ rs) t =
      let (t', saved, stamped) = save_checkpoint D now r t in
      let (t'', all, rest) = flush_rows now rs t' in
      if saved then (t'', all, (k, stamped) ∷ rest) else (t', false, (k, stamped) ∷ rs)

  -- Whether every row was saved.
  unfoldable pub flush_checkpoints : ℤ → CheckpointManager → CheckpointManager × Bool
  flush_checkpoints now cm =
      let (t, all, rows) = flush_rows now cm.checkpoints cm.table in
      (record { table = t; checkpoints = rows }, all)

  unfoldable pub mark_recovery_complete : ℤ → RecoveryContext → Bool → String → RecoveryContext
  mark_recovery_complete now c success message =
      save_recovery_result D now (record c { recovery_success = success; recovery_error = message })

  -- The pairs of processor and symbol that await a recovery.
  unfoldable pub list_pending_recovery_items : CheckpointManager → Option (List (String × String))
  list_pending_recovery_items cm = elim (list_pending_rows D cm.table) [
    | none ↦ none
    | some rows ↦ some (map (λ r. (r.processor_name, r.symbol)) rows)
  ]
