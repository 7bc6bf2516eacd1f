-- ===== src/Partition/Setup.antt =====
-- `SetupCoordinators` of biz/service/setup_coordinators.go, which fills the default coordinator of
-- biz/model/transfer_coordinator.go and the one of the partition manager.
use cex_hertz_backend.Base.{
  String, Option, none, some, [], ◌∷◌, Dict, lookup, insert, str_eq, List, ◌≡◌, ◌≢◌, refl, sym, ◌∙◌,
  Bool-cases, inl, inr, arith, lookup-insert,
}
use cex_hertz_backend.Ownership.Types.{OwnershipStateMachine, TransferCoordinator}
use cex_hertz_backend.Ownership.Machine.{set_transfer_coordinator as set_coordinator}
use cex_hertz_backend.Partition.Manager.{
  PartitionManager, register_ownership_fsm, get_ownership_fsm, or_nil, coordinate,
  set_transfer_coordinator,
}

-- The two places that the call fills; a nil manager is `none`.
pub record Coordinators : Type 0 where
  pub default_transfer_coordinator : Option TransferCoordinator
  pub manager : Option PartitionManager

-- A database, as the call meets it: what AutoMigrate answers, an error or none, and the coordinator
-- that is made over it.
pub record Database : Type 0 where
  pub auto_migrate : Option String
  pub coordinator : TransferCoordinator

abbrev pub inject : TransferCoordinator → Option PartitionManager → Option PartitionManager
inject tc none = none
inject tc (some pm) = some (set_transfer_coordinator (some tc) pm)

abbrev pub set_up :
    Option String → TransferCoordinator → Coordinators → Coordinators × Option String
set_up (some e) tc s = (s, some e)
set_up none tc s =
    (record { default_transfer_coordinator = some tc; manager = inject tc s.manager }, none)

-- With the error; a nil database is `none`.
unfoldable pub setup_coordinators : Option Database → Coordinators → Coordinators × Option String
setup_coordinators none s = (s, none)
setup_coordinators (some db) s = set_up db.auto_migrate db.coordinator s

-- Every machine that is registered asks this coordinator.
pub record Coordinated (tc : TransferCoordinator) (pm : PartitionManager) : Type 0 where
  pub for_new : pm.transfer_coord ≡ some tc
  pub for_old :
      (pid : String) (fsm : OwnershipStateMachine)
      → get_ownership_fsm pid pm ≡ some fsm
      → fsm.transfer_coordinator ≡ some tc

coordinate_lem :
    (tc : TransferCoordinator) (pid : String) (fsm : OwnershipStateMachine)
    (fsms : Dict (Option OwnershipStateMachine))
    → or_nil (lookup pid (coordinate (some tc) fsms)) ≡ some fsm
    → fsm.transfer_coordinator ≡ some tc
unfolding coordinate lookup set_coordinator
coordinate_lem tc pid fsm [] h = absurd (cc)
coordinate_lem tc pid fsm ((j, none) ∷ fsms) h = ground (arith, coordinate_lem tc pid fsm fsms)
coordinate_lem tc pid fsm ((j, some f) ∷ fsms) h = ground (arith, coordinate_lem tc pid fsm fsms)

-- A manager is Coordinated once it has taken the coordinator.
set_transfer_coordinator-Coordinated :
    (tc : TransferCoordinator) (pm : PartitionManager)
    → Coordinated tc (set_transfer_coordinator (some tc) pm)
unfolding set_transfer_coordinator get_ownership_fsm
set_transfer_coordinator-Coordinated tc pm = record {
  for_new = refl;
  for_old = λ pid fsm h. coordinate_lem tc pid fsm pm.ownership_fsms h;
}

-- So does an entry of that kind beside such entries.
insert_lem :
    (tc : TransferCoordinator) (pid j : String) (v : Option OwnershipStateMachine)
    (fsm : OwnershipStateMachine) (fsms : Dict (Option OwnershipStateMachine))
    → (v ≡ some fsm → fsm.transfer_coordinator ≡ some tc)
    → (or_nil (lookup j fsms) ≡ some fsm → fsm.transfer_coordinator ≡ some tc)
    → or_nil (lookup j (insert pid v fsms)) ≡ some fsm
    → fsm.transfer_coordinator ≡ some tc
insert_lem tc pid j v fsm fsms new old h = elim (Bool-cases (str_eq pid j)) [
  | inl same ↦ new (sym (rw (lookup-insert pid j v fsms, same) refl) ∙ h)
  | inr apart ↦ old (sym (rw (lookup-insert pid j v fsms, apart) refl) ∙ h)
]

-- Taking a machine in keeps it so.
register_ownership_fsm-Coordinated :
    (tc : TransferCoordinator) (pm : PartitionManager) (pid : String)
    (fsm : Option OwnershipStateMachine)
    → Coordinated tc pm
    → Coordinated tc (register_ownership_fsm pid fsm pm)
unfolding register_ownership_fsm get_ownership_fsm set_coordinator
register_ownership_fsm-Coordinated tc pm pid none w = record {
  for_new = w.for_new;
  for_old = λ j g. insert_lem tc pid j none g pm.ownership_fsms (λ q. absurd (cc)) (w.for_old j g);
}
register_ownership_fsm-Coordinated tc pm pid (some f) w = record {
  for_new = w.for_new;
  for_old = λ j g.
      insert_lem tc pid j
        (some (elim (pm.transfer_coord) [ none ↦ f | some k ↦ set_coordinator f (some k) ])) g
        pm.ownership_fsms (λ q. by_kept pm.transfer_coord w.for_new q) (w.for_old j g);
}
  where
    by_kept :
        {g : OwnershipStateMachine} (kept : Option TransferCoordinator)
        → kept ≡ some tc
        → some (elim kept [ none ↦ f | some k ↦ set_coordinator f (some k) ]) ≡ some g
        → g.transfer_coordinator ≡ some tc
    by_kept none at_tc q = absurd (cc)
    by_kept (some k) at_tc q = ground arith

unfoldable register_all :
    List (String × Option OwnershipStateMachine) → PartitionManager → PartitionManager
register_all [] pm = pm
register_all ((pid, fsm) ∷ more) pm = register_all more (register_ownership_fsm pid fsm pm)

register_all-Coordinated :
    (tc : TransferCoordinator) (fsms : List (String × Option OwnershipStateMachine))
    (pm : PartitionManager)
    → Coordinated tc pm
    → Coordinated tc (register_all fsms pm)
unfolding register_all
register_all-Coordinated tc [] pm w = w
register_all-Coordinated tc ((pid, fsm) ∷ more) pm w =
    register_all-Coordinated tc more (register_ownership_fsm pid fsm pm)
      (register_ownership_fsm-Coordinated tc pm pid fsm w)

-- After a set-up with a database whose table could be made, the default coordinator is the one of the
-- database, and so is that of each machine, registered before the set-up or after it.
setup_coordinators-Coordinated :
    (db : Database) (s : Coordinators) (pm : PartitionManager)
    (later : List (String × Option OwnershipStateMachine))
    → db.auto_migrate ≡ none
    → s.manager ≡ some pm
    → let (s', failure) = setup_coordinators (some db) s in
      (failure ≡ none)
      × (s'.default_transfer_coordinator ≡ some db.coordinator)
      × (pm' : PartitionManager) × (s'.manager ≡ some pm')
      × Coordinated db.coordinator (register_all later pm')
unfolding setup_coordinators
setup_coordinators-Coordinated db s pm later h k =
    let tc = db.coordinator in
    rw (h, k)
      (
        refl,
        refl,
        set_transfer_coordinator (some tc) pm,
        refl,
        register_all-Coordinated tc later (set_transfer_coordinator (some tc) pm)
            (set_transfer_coordinator-Coordinated tc pm),
      )

-- A set-up without a database, or whose table could not be made, changes nothing.
setup_coordinators_failed :
    (db : Option Database) (s : Coordinators)
    → ((d : Database) → db ≡ some d → d.auto_migrate ≢ none)
    → (setup_coordinators db s).0 ≡ s
unfolding setup_coordinators
setup_coordinators_failed none s h = refl
setup_coordinators_failed (some d) s h = by_answer d.auto_migrate (h d refl)
  where
    by_answer : (a : Option String) → a ≢ none → (set_up a d.coordinator s).0 ≡ s
    by_answer none ne = absurd (ne refl)
    by_answer (some e) ne = refl
