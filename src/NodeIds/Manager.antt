-- ===== src/NodeIds/Manager.antt =====
-- `NodeIDManager` of biz/service/node_id_manager.go, one request to Consul at a time, since other
-- nodes come in between: `advance` is the code from one request up to the next.
use cex_hertz_backend.Base.{
  ℕ, suc, ◌+◌, ◌%◌, ◌^◌, ℤ, String, str_eq, Bool, true, false, Option, none, some, ltb, leb,
  if◌then◌else◌,
}
use Prim.Native.String.{◌++◌}
use cex_hertz_backend.NodeIds.Consul.{Codec, KvPair, Consul, index_of}

pub data NodeIdError : Type 0 where
  empty_addr not_queried counter_unread exhausted cas_broken conflicts not_saved : NodeIdError

-- Where the call of GetOrAllocateNodeID stands, with the variables that are live there.
pub data Stage : Type 0 where
  idle : Stage
  querying : Stage  -- before the request for the node's entry
  counting : (attempt : ℕ) → Stage  -- at the head of the loop of allocateNewNodeID
  swapping : (attempt current_id modify_index : ℕ) → Stage  -- before the check-and-set
  saving : (new_node_id : ℕ) → Stage  -- before the write of the node's entry
  returned : (id : ℕ) → Stage
  failed : NodeIdError → Stage

pub record NodeIdManager : Type 0 where
  pub node_addr : String
  pub node_id : ℕ
  pub stage : Stage

unfoldable pub new_node_id_manager : String → NodeIdManager
new_node_id_manager addr = record { node_addr = addr; node_id = 0; stage = Stage.idle }

abbrev pub node_id_counter_key : String
node_id_counter_key = "node_registry/next_id"

abbrev pub registry_key : String → String
registry_key addr = "node_registry/" ++ addr

abbrev pub max_retries : ℕ
max_retries = 3

-- How a request fares: an answer, or an error with the request lost or done.
pub data Wire : Type 0 where
  answered lost done : Wire

-- The top of GetOrAllocateNodeID, up to its first request.
unfoldable pub get_or_allocate_node_id : NodeIdManager → NodeIdManager
get_or_allocate_node_id m =
    if str_eq m.node_addr ""
    then record m { stage = Stage.failed empty_addr }
    else record m { stage = Stage.querying }

unfoldable pub get_node_id : NodeIdManager → ℕ
get_node_id m = m.node_id

module _ (C : Codec) (K : Consul C.Bytes) where
  open C use {Bytes, marshal_entry, unmarshal_entry, print_id, scan_id}
  open K use {Store, get, put, cas}

  -- The entry of the node was asked for.
  unfoldable pub queried : NodeIdManager → Option (KvPair Bytes) → NodeIdManager
  queried m none = record m { stage = Stage.counting 0 }
  queried m (some pair) = elim (unmarshal_entry pair.value) [
    | none ↦ record m { stage = Stage.counting 0 }
    | some entry ↦ record m { node_id = entry.node_id; stage = Stage.returned entry.node_id }
  ]

  unfoldable pub parse_node_id : Bytes → ℕ
  parse_node_id bytes = scan_id bytes

  unfoldable pub current_id : Option (KvPair Bytes) → ℕ
  unfolding parse_node_id
  current_id none = 1
  current_id (some pair) = parse_node_id pair.value

  -- The counter was read.
  unfoldable pub counted : NodeIdManager → ℕ → Option (KvPair Bytes) → NodeIdManager
  unfolding current_id
  counted m attempt pair =
      if ltb 1023 (current_id pair)
      then record m { stage = Stage.failed exhausted }
      else record m { stage = Stage.swapping attempt (current_id pair) (index_of pair) }

  -- The check-and-set was answered.
  unfoldable pub swapped : NodeIdManager → ℕ → ℕ → Bool → NodeIdManager
  swapped m attempt current true = record m { stage = Stage.saving current }
  swapped m attempt current false = record m { stage = Stage.counting (suc attempt) }

  unfoldable pub next_bytes : ℕ → Bytes
  next_bytes current = print_id ((current + 1) % 2 ^ 64)

  unfoldable pub entry_bytes : NodeIdManager → ℕ → ℤ → Bytes
  entry_bytes m id now =
      marshal_entry (record { node_id = id; node_addr = m.node_addr; timestamp = now })

  unfoldable pub fail : NodeIdManager → NodeIdError → NodeIdManager
  fail m why = record m { stage = Stage.failed why }

  -- From one request to the next, at the time `now`.
  unfoldable pub at_stage : Stage → Wire → ℤ → NodeIdManager → Store → NodeIdManager × Store
  unfolding queried counted swapped next_bytes entry_bytes fail
  at_stage Stage.querying answered now m s = (queried m (get s (registry_key m.node_addr)), s)
  at_stage Stage.querying lost now m s = (fail m not_queried, s)
  at_stage Stage.querying done now m s = (fail m not_queried, s)
  at_stage (Stage.counting attempt) wire now m s =
      if leb max_retries attempt then (fail m conflicts, s) else elim wire [
        | answered ↦ (counted m attempt (get s node_id_counter_key), s)
        | _ ↦ (fail m counter_unread, s)
      ]
  at_stage (Stage.swapping attempt current index) answered now m s =
      let answer = cas s node_id_counter_key (next_bytes current) index in
      (swapped m attempt current answer.1, answer.0)
  at_stage (Stage.swapping attempt current index) lost now m s = (fail m cas_broken, s)
  at_stage (Stage.swapping attempt current index) done now m s =
      (fail m cas_broken, (cas s node_id_counter_key (next_bytes current) index).0)
  at_stage (Stage.saving id) answered now m s = (
    record m { node_id = id; stage = Stage.returned id },
    put s (registry_key m.node_addr) (entry_bytes m id now),
  )
  at_stage (Stage.saving id) lost now m s = (fail m not_saved, s)
  at_stage (Stage.saving id) done now m s =
      (fail m not_saved, put s (registry_key m.node_addr) (entry_bytes m id now))
  at_stage Stage.idle wire now m s = (m, s)
  at_stage (Stage.returned id) wire now m s = (m, s)
  at_stage (Stage.failed why) wire now m s = (m, s)

  unfoldable pub advance : Wire → ℤ → NodeIdManager → Store → NodeIdManager × Store
  unfolding at_stage
  advance wire now m s = at_stage m.stage wire now m s
