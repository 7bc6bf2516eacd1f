-- ===== src/Protocol/Order.antt =====
-- The order in which the protocol of biz/model/transfer_protocol.go takes its messages, and what
-- `ValidateTransferInvariants` tells.
use cex_hertz_backend.Base.{
  ℤ, ◌≤ℤ◌, String, str_eq_iff, Bool, true, false, Option, none, some, List, [], ◌∷◌, ◌++◌, ◌≡◌, ◌≢◌,
  ◌⊎◌, ◌↔◌, arith, refl,
}
use cex_hertz_backend.Ownership.Types.{
  OwnershipState, owned, migration_pending, frozen, flushing, transferring, standby, failed,
  OwnershipStateMachine, Clock, StateTransition,
}
use cex_hertz_backend.Ownership.Machine.{
  set_target, transition, start_migration, freeze, flush, transfer, commit, rollback,
}
use cex_hertz_backend.Ownership.Diagram.{in_transit, transition_recorded, entry}
use cex_hertz_backend.Protocol.Messages.{
  TransferRequest, TransferResponse, FreezeSignal, TransferSignal, ok, err, Fallible,
}
use cex_hertz_backend.Protocol.Handler.{
  start_transfer, apply_freeze_signal, complete_flushing, apply_transfer_signal, commit_transfer,
  rollback_transfer, validate_transfer_invariants,
}

pub data Message : Type 0 where
  start : TransferRequest → Message
  freezing : FreezeSignal → Message
  flushed : String → Message
  handing_over : TransferSignal → Message
  committing abandoning : String → Message

abbrev pub done : {A : Type 0} → Fallible A → Bool
done (ok _) = true
done (err _) = false

-- A response refuses by its field `Accepted`.
abbrev pub taken : Fallible TransferResponse → Bool
taken (ok response) = response.accepted
taken (err _) = false

-- Whether the protocol takes the message, and its machine afterwards.
unfoldable pub handle :
    Clock → ℤ → Option OwnershipStateMachine → Message → Bool × Option OwnershipStateMachine
handle c now f (start req) = let r = start_transfer c now f req in (taken r.result, r.machine)
handle c now f (freezing sig) = let r = apply_freeze_signal c f sig in (done r.result, r.machine)
handle c now f (flushed owner) =
    let r = complete_flushing c now f owner in (done r.result, r.machine)
handle c now f (handing_over sig) =
    let r = apply_transfer_signal c f sig in (done r.result, r.machine)
handle c now f (committing target) =
    let r = commit_transfer c f target in (done r.result, r.machine)
handle c now f (abandoning reason) =
    let r = rollback_transfer c f reason in (done r.result, r.machine)

-- The states between which each message is documented to lead.
abbrev pub Leads : Message → OwnershipState → OwnershipState → Type 0
Leads (start req) s t = (s ≡ owned) × (t ≡ migration_pending)
Leads (freezing sig) s t = (s ≡ migration_pending) × (t ≡ frozen)
Leads (flushed owner) s t = (s ≡ frozen) × (t ≡ flushing)
Leads (handing_over sig) s t = (s ≡ flushing) × (t ≡ transferring)
Leads (committing target) s t = (s ≡ transferring) × (t ≡ standby)
Leads (abandoning reason) s t = (in_transit s ≡ true) × (t ≡ failed)

-- The machine that a call leaves, `f` where the protocol had none.
abbrev pub machine_or : OwnershipStateMachine → Option OwnershipStateMachine → OwnershipStateMachine
machine_or f none = f
machine_or f (some g) = g

-- A message that the protocol takes finds the machine in the state that the protocol demands of it,
-- and leads it to the next one.
pub handle-Leads :
    (c : Clock) (now : ℤ) (f : OwnershipStateMachine) (m : Message)
    → (handle c now (some f) m).0 ≡ true
    → Leads m f.metadata.state (machine_or f (handle c now (some f) m).1).metadata.state
unfolding handle transition
handle-Leads c now f (start req) h = unfold start_transfer start_migration in ground arith
handle-Leads c now f (freezing sig) h = unfold apply_freeze_signal freeze in ground arith
handle-Leads c now f (flushed owner) h = unfold complete_flushing flush in ground arith
handle-Leads c now f (handing_over sig) h = unfold apply_transfer_signal transfer in ground arith
handle-Leads c now f (committing target) h = unfold commit_transfer commit in ground arith
handle-Leads c now f (abandoning reason) h = unfold rollback_transfer rollback in ground arith

-- `ValidateTransferInvariants` passes exactly where the checkpoint is no later than the last event
-- processed, Kafka offsets are known while events are flushed or handed over, and a migration that
-- is under way has a target.
validate_transfer_invariants_iff :
    (f : OwnershipStateMachine)
    → (validate_transfer_invariants (some f) ≡ none) ↔ (
        (f.metadata.checkpoint_seq ≤ℤ f.metadata.last_processed_seq)
        × ((f.metadata.kafka_offset ≢ [])
            ⊎ ((f.metadata.state ≢ transferring) × (f.metadata.state ≢ flushing)))
        × ((in_transit f.metadata.state ≡ false) ⊎ (f.metadata.target_owner ≢ "")))
unfolding validate_transfer_invariants
validate_transfer_invariants_iff f = ground (arith, str_eq_iff f.metadata.target_owner "")

rollback_transfer-rollback :
    (c : Clock) (f : OwnershipStateMachine) (reason : String)
    → (rollback_transfer c (some f) reason).result ≡ ok tt
    → ((rollback c f reason).failure ≡ none)
      × (machine_or f (rollback_transfer c (some f) reason).machine ≡ (rollback c f reason).machine)
unfolding rollback_transfer
rollback_transfer-rollback c f reason h = ground arith

-- A rollback that succeeds records the reason given to `RollbackTransfer` as the actor of the
-- transition, and "Rollback" as its reason.
pub rollback_transfer_actor :
    (c : Clock) (f : OwnershipStateMachine) (reason : String)
    → (rollback_transfer c (some f) reason).result ≡ ok tt
    → (kept : List StateTransition) × (e : StateTransition) × ((machine_or f
          (rollback_transfer c (some f) reason).machine).metadata.transition_history
        ≡ kept ++ e ∷ [])
      × (e.actor ≡ reason)
      × (e.reason ≡ "Rollback")
unfolding rollback
rollback_transfer_actor c f reason h =
    let (undone, same) = rollback_transfer-rollback c f reason h in
    let recorded = transition_recorded c (set_target "" f) failed "Rollback" reason undone in
    (
      recorded.0.0,
      entry c (set_target "" f) failed "Rollback" reason,
      rw same recorded.0.1,
      refl,
      refl,
    )
