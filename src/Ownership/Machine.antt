-- ===== src/Ownership/Machine.antt =====
-- The methods of `OwnershipStateMachine` of biz/model/partition_ownership.go. A call returns the
-- machine after it, its error, and what the listeners were told.
use cex_hertz_backend.Base.{
  ℕ, ◌-◌, ℤ, pos, String, str_eq, Bool, true, false, Option, none, some, List, [], ◌∷◌, ◌++◌, map,
  length, drop, ltb, ltb_ℤ, add64, if◌then◌else◌, insert,
}
use cex_hertz_backend.Ownership.Types.{
  OwnershipState, owned, migration_pending, frozen, flushing, transferring, standby, failed,
  StateTransition, OwnershipMetadata, TransferCoordinator, OwnershipStateMachine, Clock,
  OwnershipError, invalid_transition, guard_failed, guard_refused, action_failed, seq_backward,
  checkpoint_exceeds, invalid_offset,
}
use cex_hertz_backend.Ownership.Guards.{guards, actions}

-- One call of `OnOwnershipChange`.
pub record Notice : Type 0 where
  pub listener : ℕ
  pub old_metadata : OwnershipMetadata
  pub new_metadata : OwnershipMetadata

pub record Outcome : Type 0 where
  pub machine : OwnershipStateMachine
  pub failure : Option OwnershipError
  pub notices : List Notice

abbrev refuse : OwnershipStateMachine → OwnershipError → Outcome
refuse f e = record { machine = f; failure = some e; notices = [] }

-- The last 100 transitions.
unfoldable pub limit_history : List StateTransition → List StateTransition
limit_history h = if ltb 100 (length h) then drop (length h - 100) h else h

-- The part of `Transition` after its action: `m` is what the action left.
finish :
    Clock → OwnershipStateMachine → OwnershipState → String → String → OwnershipMetadata → Outcome
finish c f to why who m = record {
  machine = record f { metadata = m' };
  failure = none;
  notices =
      map (λ l. record { listener = l; old_metadata = f.metadata; new_metadata = m' }) f.listeners;
}
  where
    m' : OwnershipMetadata
    m' = record m {
      state = to;
      state_transition_time = c.transition_time;
      version = add64 m.version (pos 1);
      transition_history = limit_history (
          m.transition_history
          ++ record {
            from_state = f.metadata.state;
            to_state = to;
            reason = why;
            timestamp = c.history_time;
            actor = who;
          }
            ∷ []);
    }

after_action :
    Clock
    → OwnershipStateMachine
    → OwnershipState
    → String
    → String
    → OwnershipMetadata × Option OwnershipError
    → Outcome
unfolding finish
after_action c f to why who (m, some e) = refuse (record f { metadata = m }) (action_failed e)
after_action c f to why who (m, none) = finish c f to why who m

after_guard :
    Clock
    → OwnershipStateMachine
    → OwnershipState
    → String
    → String
    → Bool × Option OwnershipError
    → Outcome
unfolding after_action actions
after_guard c f to why who (allowed, some e) = refuse f (guard_failed e)
after_guard c f to why who (false, none) = refuse f guard_refused
after_guard c f to why who (true, none) = elim (actions f.metadata.state to) [
  | none ↦ finish c f to why who f.metadata
  | some action ↦ after_action c f to why who (action c f)
]

unfoldable pub transition :
    Clock → OwnershipStateMachine → OwnershipState → String → String → Outcome
unfolding after_guard guards
transition c f to why who = elim (guards f.metadata.state to) [
  | none ↦ refuse f (invalid_transition f.metadata.state to)
  | some guard ↦ after_guard c f to why who (guard c f)
]

-- Assignment to `TargetOwner`, which StartMigration and Rollback make under the lock by itself; the two
-- functions below are these calls with no other call between their two sections.
abbrev pub set_target : String → OwnershipStateMachine → OwnershipStateMachine
set_target target f = record f { metadata = record (f.metadata) { target_owner = target } }

unfoldable pub start_migration : Clock → OwnershipStateMachine → String → String → Outcome
start_migration c f target who =
    transition c (set_target target f) migration_pending "StartMigration" who

unfoldable pub freeze : Clock → OwnershipStateMachine → String → Outcome
freeze c f who = transition c f frozen "Freeze" who

unfoldable pub flush : Clock → OwnershipStateMachine → String → Outcome
flush c f who = transition c f flushing "Flush" who

unfoldable pub transfer : Clock → OwnershipStateMachine → String → Outcome
transfer c f who = transition c f transferring "Transfer" who

unfoldable pub commit : Clock → OwnershipStateMachine → String → Outcome
commit c f who = transition c f standby "Commit" who

unfoldable pub rollback : Clock → OwnershipStateMachine → String → Outcome
rollback c f who = transition c (set_target "" f) failed "Rollback" who

unfoldable pub recover : Clock → OwnershipStateMachine → String → Outcome
recover c f who = transition c f owned "Recover" who

-- The fields that `GetMetadata` copies; those it leaves out are zero values.
unfoldable pub get_metadata : OwnershipStateMachine → OwnershipMetadata
get_metadata f = record (f.metadata) { transfer_id = ""; transition_history = [] }

abbrev accept : OwnershipStateMachine → OwnershipMetadata → Outcome
accept f m = record {
  machine = record f { metadata = record m { version = add64 m.version (pos 1) } };
  failure = none;
  notices = [];
}

unfoldable pub update_last_processed_seq : OwnershipStateMachine → ℤ → Outcome
update_last_processed_seq f seq =
    if ltb_ℤ seq f.metadata.last_processed_seq
    then refuse f (seq_backward f.metadata.last_processed_seq seq)
    else accept f (record (f.metadata) { last_processed_seq = seq })

unfoldable pub update_checkpoint : OwnershipStateMachine → ℤ → Outcome
update_checkpoint f seq =
    if ltb_ℤ f.metadata.last_processed_seq seq
    then refuse f (checkpoint_exceeds seq f.metadata.last_processed_seq)
    else accept f (record (f.metadata) { checkpoint_seq = seq })

unfoldable pub update_kafka_offset : OwnershipStateMachine → String → ℤ → Outcome
unfolding insert
update_kafka_offset f symbol offset =
    if ltb_ℤ offset (pos 0)
    then refuse f (invalid_offset offset)
    else accept f
        (record (f.metadata) { kafka_offset = insert symbol offset f.metadata.kafka_offset })

unfoldable pub get_state : OwnershipStateMachine → OwnershipState
get_state f = f.metadata.state

unfoldable pub is_owner : OwnershipStateMachine → String → Bool
is_owner f node = str_eq f.metadata.current_owner node

unfoldable pub add_listener : OwnershipStateMachine → ℕ → OwnershipStateMachine
add_listener f listener = record f { listeners = f.listeners ++ listener ∷ [] }

unfoldable pub set_migration_timeout : OwnershipStateMachine → ℤ → OwnershipStateMachine
set_migration_timeout f timeout = record f { migration_timeout = timeout }

unfoldable pub set_transfer_coordinator :
    OwnershipStateMachine → Option TransferCoordinator → OwnershipStateMachine
set_transfer_coordinator f coordinator = record f { transfer_coordinator = coordinator }

unfoldable pub get_transition_history : OwnershipStateMachine → List StateTransition
get_transition_history f = f.metadata.transition_history
