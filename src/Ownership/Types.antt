-- ===== src/Ownership/Types.antt =====
-- The data of biz/model/partition_ownership.go, and the coordinator interface of
-- biz/model/transfer_coordinator.go.
use cex_hertz_backend.Base.{ℕ, ℤ, pos, String, Bool, Option, List, [], Dict, ◌/◌, negsuc, suc}

pub data OwnershipState : Type 0 where
  owned migration_pending frozen flushing transferring standby failed : OwnershipState

-- `OwnershipState.String`, of the states that the machine can be in.
unfoldable pub state_name : OwnershipState → String
state_name owned = "Owned"
state_name migration_pending = "MigrationPending"
state_name frozen = "Frozen"
state_name flushing = "Flushing"
state_name transferring = "Transferring"
state_name standby = "Standby"
state_name failed = "Failed"

pub record StateTransition : Type 0 where
  pub from_state : OwnershipState
  pub to_state : OwnershipState
  pub reason : String
  pub timestamp : ℤ
  pub actor : String

-- Sequence numbers, offsets and times are int64.
pub record OwnershipMetadata : Type 0 where
  pub partition_id : String
  pub current_owner : String
  pub previous_owner : String
  pub target_owner : String
  pub state : OwnershipState
  pub symbols : List String
  pub last_processed_seq : ℤ
  pub state_transition_time : ℤ
  pub migration_start_time : ℤ
  pub checkpoint_seq : ℤ
  pub transfer_id : String
  pub kafka_offset : Dict ℤ
  pub version : ℤ
  pub transition_history : List StateTransition

-- What a call of the coordinator returns: a value, or the text of its error.
pub data Answer (A : Type 0) : Type 0 where
  value : A → Answer A
  error : String → Answer A

-- The methods of `TransferCoordinator` that the machine calls. A coordinator keeps its records
-- elsewhere, so its answer depends on the moment of the call too.
pub record TransferCoordinator : Type 0 where
  pub initiate_transfer : ℕ → String → String → String → ℤ → Answer String
  pub is_target_ready : ℕ → String → Answer Bool

-- `guards` and `actions` are filled once, by `registerTransitions`, and are functions of the model;
-- a listener is known by a number.
pub record OwnershipStateMachine : Type 0 where
  pub metadata : OwnershipMetadata
  pub listeners : List ℕ
  pub migration_timeout : ℤ  -- nanoseconds
  pub transfer_coordinator : Option TransferCoordinator

-- What one call of the machine reads of the outside: the seconds that `time.Now().Unix()` gives at
-- each of its places, and the moment at which the coordinator is asked.
pub record Clock : Type 0 where
  pub guard_time : ℤ
  pub action_time : ℤ
  pub transition_time : ℤ
  pub history_time : ℤ
  pub moment : ℕ

pub data OwnershipError : Type 0 where
  target_owner_not_set same_owner migration_timed_out : OwnershipError
  checkpoint_not_persisted no_transfer_record guard_refused : OwnershipError
  coordinator_failed initiate_failed : String → OwnershipError
  invalid_transition : OwnershipState → OwnershipState → OwnershipError
  guard_failed action_failed : OwnershipError → OwnershipError
  seq_backward checkpoint_exceeds : ℤ → ℤ → OwnershipError
  invalid_offset : ℤ → OwnershipError

-- `NewOwnershipStateMachine`, at the time `now` and with the default coordinator.
unfoldable pub new_machine :
    ℤ → Option TransferCoordinator → String → String → List String → OwnershipStateMachine
new_machine now coordinator partition owner symbols = record {
  metadata = record {
    partition_id = partition;
    current_owner = owner;
    previous_owner = "";
    target_owner = "";
    state = owned;
    symbols = symbols;
    last_processed_seq = pos 0;
    state_transition_time = now;
    migration_start_time = pos 0;
    checkpoint_seq = pos 0;
    transfer_id = "";
    kafka_offset = [];
    version = pos 1;
    transition_history = [];
  };
  listeners = [];
  migration_timeout = pos 30000000000;
  transfer_coordinator = coordinator;
}

-- int64(d.Seconds()): towards 0. (The code goes through a float64, which is exact up to 2 ^ 53 ns.)
unfoldable pub whole_seconds : ℤ → ℤ
whole_seconds (pos n) = pos (n / 1000000000)
whole_seconds (negsuc n) = neg (suc n / 1000000000)
  where
    neg : ℕ → ℤ
    neg ℕ.zero = pos 0
    neg (ℕ.suc k) = negsuc k
