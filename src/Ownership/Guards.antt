-- ===== src/Ownership/Guards.antt =====
-- `registerTransitions` of biz/model/partition_ownership.go: the guard and the action of each
-- transition. `none` is a transition that is not registered.
use cex_hertz_backend.Base.{
  String, str_eq, Bool, true, false, Option, none, some, ltb_ℤ, leb_ℤ, sub64, if◌then◌else◌,
}
use cex_hertz_backend.Ownership.Types.{
  OwnershipState, owned, migration_pending, frozen, flushing, transferring, standby, failed,
  OwnershipMetadata, Answer, value, error, OwnershipStateMachine, Clock, OwnershipError,
  target_owner_not_set, same_owner, migration_timed_out, checkpoint_not_persisted,
  no_transfer_record, coordinator_failed, initiate_failed, whole_seconds,
}

-- func() (bool, error)
abbrev pub Guard : Type 0
Guard = Clock → OwnershipStateMachine → Bool × Option OwnershipError

-- func() error, over the metadata that it changes
abbrev pub Action : Type 0
Action = Clock → OwnershipStateMachine → OwnershipMetadata × Option OwnershipError

abbrev allow : Guard
allow c f = (true, none)

start_guard : Guard
start_guard c f =
    if str_eq f.metadata.target_owner ""
    then (false, some target_owner_not_set)
    else if str_eq f.metadata.target_owner f.metadata.current_owner
    then (false, some same_owner)
    else (true, none)

freeze_guard : Guard
freeze_guard c f =
    if ltb_ℤ (whole_seconds f.migration_timeout)
      (sub64 c.guard_time f.metadata.migration_start_time)
    then (false, some migration_timed_out)
    else (true, none)

checkpoint_guard : OwnershipMetadata → Bool × Option OwnershipError
checkpoint_guard m =
    if leb_ℤ m.checkpoint_seq m.last_processed_seq
    then (true, none)
    else (false, some checkpoint_not_persisted)

-- Both branches of the code make the same test.
transfer_guard : Guard
unfolding checkpoint_guard
transfer_guard c f = elim f.transfer_coordinator [
  | none ↦ checkpoint_guard f.metadata
  | some coordinator ↦ checkpoint_guard f.metadata
]

ready_verdict : Answer Bool → Bool × Option OwnershipError
ready_verdict (error e) = (false, some (coordinator_failed e))
ready_verdict (value ready) = (ready, none)

commit_guard : Guard
unfolding ready_verdict
commit_guard c f = elim f.transfer_coordinator [
  | none ↦ (true, none)
  | some coordinator ↦
      if str_eq f.metadata.transfer_id ""
      then (false, some no_transfer_record)
      else ready_verdict (coordinator.is_target_ready c.moment f.metadata.transfer_id)
]

unfoldable pub guards : OwnershipState → OwnershipState → Option Guard
unfolding start_guard freeze_guard transfer_guard commit_guard
guards owned migration_pending = some start_guard
guards migration_pending frozen = some freeze_guard
guards frozen flushing = some allow
guards flushing transferring = some transfer_guard
guards transferring standby = some commit_guard
guards migration_pending failed = some allow
guards frozen failed = some allow
guards flushing failed = some allow
guards transferring failed = some allow
guards failed owned = some allow
guards _ _ = none

abbrev nothing : Action
nothing c f = (f.metadata, none)

abbrev clear_target : Action
clear_target c f = (record (f.metadata) { target_owner = "" }, none)

start_action : Action
start_action c f = (record (f.metadata) { migration_start_time = c.action_time }, none)

initiated : OwnershipMetadata → Answer String → OwnershipMetadata × Option OwnershipError
initiated m (error e) = (m, some (initiate_failed e))
initiated m (value id) = (record m { transfer_id = id }, none)

transfer_action : Action
unfolding initiated
transfer_action c f = elim f.transfer_coordinator [
  | none ↦ (f.metadata, none)
  | some coordinator ↦ initiated f.metadata (
      coordinator.initiate_transfer c.moment f.metadata.partition_id f.metadata.current_owner
        f.metadata.target_owner f.metadata.checkpoint_seq)
]

commit_action : Action
commit_action c f = (
  record m { previous_owner = m.current_owner; current_owner = m.target_owner; target_owner = "" },
  none,
)
  where
    m : OwnershipMetadata
    m = f.metadata

unfoldable pub actions : OwnershipState → OwnershipState → Option Action
unfolding start_action transfer_action commit_action
actions owned migration_pending = some start_action
actions migration_pending frozen = some nothing
actions frozen flushing = some nothing
actions flushing transferring = some transfer_action
actions transferring standby = some commit_action
actions migration_pending failed = some clear_target
actions frozen failed = some clear_target
actions flushing failed = some clear_target
actions transferring failed = some clear_target
actions failed owned = some clear_target
actions _ _ = none
