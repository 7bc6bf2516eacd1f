-- ===== src/Ownership/Migration.antt =====
-- Starting and abandoning a migration: `StartMigration` and `Rollback` of
-- biz/model/partition_ownership.go, which write `TargetOwner` before the transition is tried.
use cex_hertz_backend.Base.{String, none, ◌≡◌, ◌≢◌, ◌↔◌, true, arith, str_eq_iff}
use cex_hertz_backend.Ownership.Types.{owned, transferring, failed, OwnershipStateMachine, Clock}
use cex_hertz_backend.Ownership.Machine.{transition, start_migration, commit, rollback, set_target}
use cex_hertz_backend.Ownership.Diagram.{in_transit}

-- From Owned a migration starts exactly when its target is named and is not the owner itself.
start_migration_iff :
    (c : Clock) (f : OwnershipStateMachine) (target who : String)
    → f.metadata.state ≡ owned
    → ((start_migration c f target who).failure ≡ none)
      ↔ ((target ≢ "") × (target ≢ f.metadata.current_owner))
unfolding start_migration transition
start_migration_iff c f target who h =
    ground (arith, str_eq_iff target "", str_eq_iff target f.metadata.current_owner)

-- Outside Owned a migration is refused, and yet the machine goes on with the new target; the rest
-- of the machine is as it was.
start_migration_overwrites :
    (c : Clock) (f : OwnershipStateMachine) (target who : String)
    → f.metadata.state ≢ owned
    → ((start_migration c f target who).failure ≢ none)
      × ((start_migration c f target who).machine ≡ set_target target f)
unfolding start_migration transition
start_migration_overwrites c f target who h = ground arith

-- In Transferring and with no coordinator a second migration is refused, and the commit that follows
-- succeeds and makes the refused migration's target the owner.
pub start_migration-commit :
    (c d : Clock) (f : OwnershipStateMachine) (target who by : String)
    → f.metadata.state ≡ transferring
    → f.transfer_coordinator ≡ none
    → let g = (start_migration c f target who).machine in
      ((start_migration c f target who).failure ≢ none)
      × ((commit d g by).failure ≡ none)
      × ((commit d g by).machine.metadata.current_owner ≡ target)
unfolding start_migration commit transition
start_migration-commit c d f target who by h k = ground arith

-- A rollback is done from the states of a migration and from no other. It ends in Failed, with no
-- target and the same owner.
rollback_iff :
    (c : Clock) (f : OwnershipStateMachine) (who : String)
    → let o = rollback c f who in
      (o.failure ≡ none) ↔ (
        (in_transit f.metadata.state ≡ true)
        × (o.machine.metadata.state ≡ failed)
        × (o.machine.metadata.target_owner ≡ "")
        × (o.machine.metadata.current_owner ≡ f.metadata.current_owner))
unfolding rollback transition
rollback_iff c f who = ground arith
