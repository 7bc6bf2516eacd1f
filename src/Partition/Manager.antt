-- ===== src/Partition/Manager.antt =====
-- `PartitionManager` of biz/service/partition_manager.go. What Consul answers is an argument. A method
-- runs under its lock as one step. The table is not nil: the code stores no nil pointer there.
use cex_hertz_backend.Base.{
  ℕ, ◌==◌, String, str_eq, Bool, true, false, ◌||◌, not, Option, none, some, List, [], ◌∷◌, Dict,
  lookup, insert, erase, ◌≡◌, refl, arith, if◌then◌else◌,
}
use cex_hertz_backend.Ownership.Types.{OwnershipStateMachine, TransferCoordinator}
use cex_hertz_backend.Ownership.Machine.{set_transfer_coordinator as set_coordinator}
use cex_hertz_backend.Partition.Table.{PartitionTable, new_partition_table}

-- A machine of the registry may be nil. Each has one entry, so that a change of a machine through
-- its pointer is a change of the entry.
pub record PartitionManager : Type 0 where
  pub cache : PartitionTable
  pub watched : Bool
  pub ownership_fsms : Dict (Option OwnershipStateMachine)
  pub transfer_coord : Option TransferCoordinator

-- What an agent at an address answers: an error, or the leader, whose text may be empty.
pub data Agent : Type 0 where
  unreachable : (error : String) → Agent
  leader : (name : String) → Agent

abbrev pub fresh_manager : PartitionManager
fresh_manager = record {
  cache = new_partition_table;
  watched = false;
  ownership_fsms = [];
  transfer_coord = none;
}

-- The loop over the addresses, with the last error.
unfoldable pub try_agents : List Agent → Option String → Option PartitionManager × Option String
try_agents [] last = (none, last)
try_agents (unreachable error ∷ agents) last = try_agents agents (some error)
try_agents (leader name ∷ agents) last =
    let rest = try_agents agents none in if str_eq name "" then rest else (some fresh_manager, none)

unfoldable pub new_partition_manager : List Agent → Option PartitionManager × Option String
new_partition_manager agents = try_agents agents none

-- An answer for the key of the table: an error, nothing, or the bytes, decoded or not.
pub data Found : Type 0 where
  unread missing : Found
  found : (decoded : Option PartitionTable) → Found

-- With whether there is an error.
unfoldable pub load_from_consul : Found → PartitionManager → PartitionManager × Bool
load_from_consul unread pm = (pm, true)
load_from_consul missing pm = (pm, false)
load_from_consul (found none) pm = (pm, true)
load_from_consul (found (some pt)) pm = (record pm { cache = pt }, false)

-- What is put into Consul, if it can be encoded, and whether there is an error.
unfoldable pub save_to_consul :
    (encodes puts : Bool) → PartitionManager → Option PartitionTable × Bool
save_to_consul encodes puts pm =
    if encodes then (if puts then (some pm.cache, false) else (none, true)) else (none, true)

unfoldable pub get_partition_table : PartitionManager → PartitionTable
get_partition_table pm = pm.cache

-- What a blocking query answers: an error, no pair, or a pair with its index.
pub data Polled : Type 0 where
  unanswered no_pair : Polled
  pair : (index : ℕ) → (decoded : Option PartitionTable) → Polled

-- A round of the loop that WatchPartitionTable starts, from the last index on.
unfoldable pub watch_round : Polled → ℕ × PartitionManager → ℕ × PartitionManager
watch_round unanswered (last, pm) = (last, pm)
watch_round no_pair (last, pm) = (last, pm)
watch_round (pair index decoded) (last, pm) =
    if index == last
    then (last, pm)
    else elim decoded [ none ↦ (index, pm) | some pt ↦ (index, record pm { cache = pt }) ]

unfoldable pub watch_partition_table : PartitionManager → PartitionManager
watch_partition_table pm = record pm { watched = true }

unfoldable pub update_partition_table :
    (encodes puts : Bool)
    → PartitionTable
    → PartitionManager
    → PartitionManager × Option PartitionTable × Bool
unfolding save_to_consul
update_partition_table encodes puts pt pm =
    let pm' : PartitionManager = record pm { cache = pt } in
    let (stored, failed) = save_to_consul encodes puts pm' in (pm', stored, failed)

unfoldable pub register_ownership_fsm :
    String → Option OwnershipStateMachine → PartitionManager → PartitionManager
register_ownership_fsm pid none pm = record pm {
  ownership_fsms = insert pid none pm.ownership_fsms;
}
register_ownership_fsm pid (some fsm) pm = record pm {
  ownership_fsms =
      insert pid
        (some (elim (pm.transfer_coord) [ none ↦ fsm | some tc ↦ set_coordinator fsm (some tc) ]))
        pm.ownership_fsms;
}

unfoldable pub unregister_ownership_fsm : String → PartitionManager → PartitionManager
unregister_ownership_fsm pid pm = record pm { ownership_fsms = erase pid pm.ownership_fsms }

-- A missing key reads as nil.
abbrev pub or_nil : Option (Option OwnershipStateMachine) → Option OwnershipStateMachine
or_nil none = none
or_nil (some fsm) = fsm

unfoldable pub get_ownership_fsm : String → PartitionManager → Option OwnershipStateMachine
get_ownership_fsm pid pm = or_nil (lookup pid pm.ownership_fsms)

unfoldable pub coordinate :
    Option TransferCoordinator
    → Dict (Option OwnershipStateMachine)
    → Dict (Option OwnershipStateMachine)
coordinate tc [] = []
coordinate tc ((pid, none) ∷ fsms) = (pid, none) ∷ coordinate tc fsms
coordinate tc ((pid, some fsm) ∷ fsms) = (pid, some (set_coordinator fsm tc)) ∷ coordinate tc fsms

unfoldable pub set_transfer_coordinator :
    Option TransferCoordinator → PartitionManager → PartitionManager
unfolding coordinate
set_transfer_coordinator tc pm = record pm {
  transfer_coord = tc;
  ownership_fsms = coordinate tc pm.ownership_fsms;
}

unfoldable pub list_registered_fsms : PartitionManager → Dict (Option OwnershipStateMachine)
list_registered_fsms pm = pm.ownership_fsms

-- The error of the last agent, if it has one; an agent without a leader has none.
abbrev pub last_error : List Agent → Option String → Option String
last_error [] last = last
last_error (unreachable error ∷ agents) last = last_error agents (some error)
last_error (leader name ∷ agents) last = last_error agents none

abbrev pub has_leader : List Agent → Bool
has_leader [] = false
has_leader (unreachable error ∷ agents) = has_leader agents
has_leader (leader name ∷ agents) = not (str_eq name "") || has_leader agents

try_agents-none :
    (agents : List Agent) (last : Option String)
    → has_leader agents ≡ false
    → try_agents agents last ≡ (none, last_error agents last)
unfolding try_agents
try_agents-none [] last h = refl
try_agents-none (unreachable error ∷ agents) last h = try_agents-none agents (some error) h
try_agents-none (leader name ∷ agents) last h = ground (arith, try_agents-none agents none)

try_agents-some :
    (agents : List Agent) (last : Option String)
    → has_leader agents ≡ true
    → try_agents agents last ≡ (some fresh_manager, none)
unfolding try_agents
try_agents-some [] last h = absurd (cc)
try_agents-some (unreachable error ∷ agents) last h = try_agents-some agents (some error) h
try_agents-some (leader name ∷ agents) last h = ground (arith, try_agents-some agents none)

-- A manager is made exactly when some agent names a leader. Else the error is that of the last agent,
-- and is nil beside the nil manager when that one was reached but has no leader, or when there is no
-- agent at all.
pub new_partition_manager_lem :
    (agents : List Agent)
    → (has_leader agents ≡ true → new_partition_manager agents ≡ (some fresh_manager, none))
      × (has_leader agents ≡ false → new_partition_manager agents ≡ (none, last_error agents none))
unfolding new_partition_manager
new_partition_manager_lem agents = (try_agents-some agents none, try_agents-none agents none)
