-- ===== src/Ownership/Invariant.antt =====
-- What holds of the machine of biz/model/partition_ownership.go after every history of calls.
use cex_hertz_backend.Base.{
  ◌≤◌, ℤ, ◌≤ℤ◌, String, Option, List, [], ◌∷◌, ◌++◌, ◌≡◌, refl, ◌⊎◌, arith, length,
}
use cex_hertz_backend.Ownership.Types.{
  OwnershipState, transferring, standby, OwnershipStateMachine, Clock, TransferCoordinator,
  new_machine,
}
use cex_hertz_backend.Ownership.Machine.{
  set_target, transition, start_migration, freeze, flush, transfer, commit, rollback, recover,
  update_last_processed_seq, update_checkpoint, update_kafka_offset, add_listener,
  set_migration_timeout, set_transfer_coordinator,
}
use cex_hertz_backend.Ownership.Diagram.{limit_history-le, entry}
use cex_hertz_backend.Ownership.Calls.{
  Call, transitions, targets, starts, freezes, flushes, transfers, commits, rolls_back, recovers,
  processes, checkpoints, offsets, listens, times_out_after, coordinates, step, run,
}

-- The first invariant that `ValidateTransferInvariants` tests, and the bound on the history.
pub record Inv (f : OwnershipStateMachine) : Type 0 where
  pub checkpointed : f.metadata.checkpoint_seq ≤ℤ f.metadata.last_processed_seq
  pub short : length f.metadata.transition_history ≤ 100

transition-Inv :
    (c : Clock) (f : OwnershipStateMachine) (to : OwnershipState) (why who : String)
    → Inv f
    → Inv (transition c f to why who).machine
unfolding transition
transition-Inv c f to why who v =
    ground (arith, limit_history-le (f.metadata.transition_history ++ entry c f to why who ∷ []))

step-Inv : (f : OwnershipStateMachine) (c : Clock × Call) → Inv f → Inv (step f c)
unfolding step start_migration freeze flush transfer commit rollback recover
step-Inv f (c, transitions to why who) v = transition-Inv c f to why who v
step-Inv f (c, targets target) v = ground arith
step-Inv f (c, starts target who) v = transition-Inv c (set_target target f) _ _ who (ground arith)
step-Inv f (c, freezes who) v = transition-Inv c f _ _ who v
step-Inv f (c, flushes who) v = transition-Inv c f _ _ who v
step-Inv f (c, transfers who) v = transition-Inv c f _ _ who v
step-Inv f (c, commits who) v = transition-Inv c f _ _ who v
step-Inv f (c, rolls_back who) v = transition-Inv c (set_target "" f) _ _ who (ground arith)
step-Inv f (c, recovers who) v = transition-Inv c f _ _ who v
step-Inv f (c, processes seq) v = unfold update_last_processed_seq in ground arith
step-Inv f (c, checkpoints seq) v = unfold update_checkpoint in ground arith
step-Inv f (c, offsets symbol offset) v = unfold update_kafka_offset in ground arith
step-Inv f (c, listens listener) v = unfold add_listener in ground arith
step-Inv f (c, times_out_after timeout) v = unfold set_migration_timeout in ground arith
step-Inv f (c, coordinates coordinator) v = unfold set_transfer_coordinator in ground arith

run-Inv : (f : OwnershipStateMachine) (cs : List (Clock × Call)) → Inv f → Inv (run f cs)
unfolding run
run-Inv f [] v = v
run-Inv f (c ∷ cs) v = run-Inv (step f c) cs (step-Inv f c v)

-- After any history of calls on a new machine the checkpoint is no later than the last event
-- processed, and the history has at most 100 entries.
pub run-new_machine-Inv :
    (now : ℤ) (coordinator : Option TransferCoordinator) (partition owner : String)
    (symbols : List String) (cs : List (Clock × Call))
    → Inv (run (new_machine now coordinator partition owner symbols) cs)
unfolding new_machine
run-new_machine-Inv now coordinator partition owner symbols cs = run-Inv _ cs (omega arith)

-- The owners before and after a call: as they were, or handed from the owner to the target.
abbrev pub OwnerMove : OwnershipStateMachine → OwnershipStateMachine → Type 0
OwnerMove f g =
    ((g.metadata.current_owner ≡ f.metadata.current_owner)
      × (g.metadata.previous_owner ≡ f.metadata.previous_owner))
    ⊎ ((f.metadata.state ≡ transferring)
        × (g.metadata.state ≡ standby)
        × (g.metadata.current_owner ≡ f.metadata.target_owner)
        × (g.metadata.previous_owner ≡ f.metadata.current_owner))

transition-OwnerMove :
    (c : Clock) (f : OwnershipStateMachine) (to : OwnershipState) (why who : String)
    → OwnerMove f (transition c f to why who).machine
unfolding transition
transition-OwnerMove c f to why who = ground arith

-- No call changes the owners of a partition but the step from Transferring to Standby, which makes
-- the target the owner and the owner the previous owner.
pub step-OwnerMove : (f : OwnershipStateMachine) (c : Clock × Call) → OwnerMove f (step f c)
unfolding step start_migration freeze flush transfer commit rollback recover
step-OwnerMove f (c, transitions to why who) = transition-OwnerMove c f to why who
step-OwnerMove f (c, targets target) = ground arith
step-OwnerMove f (c, starts target who) = unfold transition in ground arith
step-OwnerMove f (c, freezes who) = transition-OwnerMove c f _ _ who
step-OwnerMove f (c, flushes who) = transition-OwnerMove c f _ _ who
step-OwnerMove f (c, transfers who) = transition-OwnerMove c f _ _ who
step-OwnerMove f (c, commits who) = transition-OwnerMove c f _ _ who
step-OwnerMove f (c, rolls_back who) = unfold transition in ground arith
step-OwnerMove f (c, recovers who) = transition-OwnerMove c f _ _ who
step-OwnerMove f (c, processes seq) = unfold update_last_processed_seq in ground arith
step-OwnerMove f (c, checkpoints seq) = unfold update_checkpoint in ground arith
step-OwnerMove f (c, offsets symbol offset) = unfold update_kafka_offset in ground arith
step-OwnerMove f (c, listens listener) = unfold add_listener in ground arith
step-OwnerMove f (c, times_out_after timeout) = unfold set_migration_timeout in ground arith
step-OwnerMove f (c, coordinates coordinator) = unfold set_transfer_coordinator in ground arith

step-standby :
    (f : OwnershipStateMachine) (c : Clock × Call)
    → f.metadata.state ≡ standby
    → (step f c).metadata.state ≡ standby
unfolding step start_migration freeze flush transfer commit rollback recover transition
    update_last_processed_seq update_checkpoint update_kafka_offset add_listener
    set_migration_timeout set_transfer_coordinator
step-standby f (c, transitions to why who) h = ground arith
step-standby f _ h = ground arith

-- Standby is final: no history of calls leads out of it, and the owners stay as they are.
pub run_standby :
    (f : OwnershipStateMachine) (cs : List (Clock × Call))
    → f.metadata.state ≡ standby
    → ((run f cs).metadata.state ≡ standby)
      × ((run f cs).metadata.current_owner ≡ f.metadata.current_owner)
      × ((run f cs).metadata.previous_owner ≡ f.metadata.previous_owner)
unfolding run
run_standby f [] h = (h, refl, refl)
run_standby f (c ∷ cs) h =
    ground (
      arith,
      step-standby f c h,
      step-OwnerMove f c,
      run_standby (step f c) cs (step-standby f c h),
    )
