-- ===== src/Ownership/Calls.antt =====
-- Every call that changes an `OwnershipStateMachine`, and histories of calls. A call that is
-- refused may still have changed the machine, so its machine is kept. StartMigration and Rollback take
-- the lock twice: `targets` is the first section of each and `transitions` the second, and other calls
-- may stand between the two; `starts` and `rolls_back` are the calls with none between.
use cex_hertz_backend.Base.{ℕ, ℤ, String, Option, List, [], ◌∷◌}
use cex_hertz_backend.Ownership.Types.{
  OwnershipState, TransferCoordinator, OwnershipStateMachine, Clock,
}
use cex_hertz_backend.Ownership.Machine.{
  transition, start_migration, freeze, flush, transfer, commit, rollback, recover,
  update_last_processed_seq, update_checkpoint, update_kafka_offset, add_listener,
  set_migration_timeout, set_transfer_coordinator, set_target,
}

pub data Call : Type 0 where
  transitions : OwnershipState → String → String → Call
  targets : String → Call
  starts : String → String → Call
  freezes flushes transfers commits rolls_back recovers : String → Call
  processes checkpoints : ℤ → Call
  offsets : String → ℤ → Call
  listens : ℕ → Call
  times_out_after : ℤ → Call
  coordinates : Option TransferCoordinator → Call

unfoldable pub step : OwnershipStateMachine → Clock × Call → OwnershipStateMachine
step f (c, transitions to why who) = (transition c f to why who).machine
step f (c, targets target) = set_target target f
step f (c, starts target who) = (start_migration c f target who).machine
step f (c, freezes who) = (freeze c f who).machine
step f (c, flushes who) = (flush c f who).machine
step f (c, transfers who) = (transfer c f who).machine
step f (c, commits who) = (commit c f who).machine
step f (c, rolls_back who) = (rollback c f who).machine
step f (c, recovers who) = (recover c f who).machine
step f (c, processes seq) = (update_last_processed_seq f seq).machine
step f (c, checkpoints seq) = (update_checkpoint f seq).machine
step f (c, offsets symbol offset) = (update_kafka_offset f symbol offset).machine
step f (c, listens listener) = add_listener f listener
step f (c, times_out_after timeout) = set_migration_timeout f timeout
step f (c, coordinates coordinator) = set_transfer_coordinator f coordinator

unfoldable pub run : OwnershipStateMachine → List (Clock × Call) → OwnershipStateMachine
run f [] = f
run f (c ∷ cs) = run (step f c) cs
