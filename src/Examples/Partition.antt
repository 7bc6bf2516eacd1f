-- ===== src/Examples/Partition.antt =====
-- The table of partitions at concrete inputs.
use cex_hertz_backend.Base.{pos, true, false, none, lookup, some, [], ◌∷◌, ◌≡◌, ◌↔◌}
use cex_hertz_backend.Partition.Table.{PartitionTable, new_partition_table}
use cex_hertz_backend.Ownership.Types.{OwnershipStateMachine}
use cex_hertz_backend.Engine.Types.{SubmitOrderMsg}
use cex_hertz_backend.Partition.Manager.{
  fresh_manager, unreachable, leader, new_partition_manager, has_leader, last_error,
  get_ownership_fsm, new_partition_manager_lem,
}
use cex_hertz_backend.Partition.Aware.{
  PartitionAwareMatchEngine, turn, new_partition_aware_match_engine, submit_order,
  not_locally_owned, passed_on,
}
use cex_hertz_backend.Partition.Registry.{owns, turn_registry}
use cex_hertz_backend.Partition.Watched.{with_table, rounds, submit_order_iff}
use cex_hertz_backend.Partition.Symbols.{serves}

abbrev table : PartitionTable
table = record {
  symbol_to_partition = ("BTCUSDT", "p-1" ∷ "p-2" ∷ []) ∷ [];
  partitions =
      (
        "p-1",
        record {
          partition_id = "p-1";
          symbols = "BTCUSDT" ∷ "ETHUSDT" ∷ [];
          workers = "node-a" ∷ "node-b" ∷ [];
        },
      )
      ∷ ("p-2", record { partition_id = "p-2"; symbols = "BTCUSDT" ∷ []; workers = "node-a" ∷ [] })
      ∷ [];
  migration_info =
      (
        "BTCUSDT",
        record {
          symbol = "BTCUSDT";
          from = "p-1";
          to = "p-2";
          migrating = true;
          update_time = pos 5;
          new_partition_id = "p-2";
        },
      )
      ∷ [];
}

-- The last agent is reached and has no leader: there is neither a manager nor an error.
new_partition_manager_lem_example :
    (has_leader (unreachable "refused" ∷ leader "" ∷ []) ≡ true
      → new_partition_manager (unreachable "refused" ∷ leader "" ∷ []) ≡ (some fresh_manager, none))
    × (has_leader (unreachable "refused" ∷ leader "" ∷ []) ≡ false
        → new_partition_manager (unreachable "refused" ∷ leader "" ∷ [])
          ≡ (none, last_error (unreachable "refused" ∷ leader "" ∷ []) none))
new_partition_manager_lem_example =
    new_partition_manager_lem (unreachable "refused" ∷ leader "" ∷ [])

abbrev node_a : PartitionAwareMatchEngine
unfolding new_partition_aware_match_engine
node_a = with_table table (new_partition_aware_match_engine fresh_manager "node-a")

turn_registry_example :
    let pm' = (turn (pos 1) none node_a).pm in
    let mine = owns node_a.local_addr "p-1" (node_a.pm.cache).partitions in
    (mine ≡ false → lookup "p-1" pm'.ownership_fsms ≡ none)
    × (mine ≡ true
        → (f : OwnershipStateMachine) × (get_ownership_fsm "p-1" pm' ≡ some f)
          × ((g : OwnershipStateMachine) → get_ownership_fsm "p-1" node_a.pm ≡ some g → f ≡ g))
turn_registry_example = turn_registry (pos 1) none node_a "p-1"

abbrev order : SubmitOrderMsg
order = record {
  order_id = "o-1";
  symbol = "ETHUSDT";
  side = "buy";
  price = "1";
  quantity = "1";
  user_id = "u-1";
}

-- The node has the symbol in the first round, and no more in the second.
submit_order_iff_example :
    let pa = turn (pos 2) none (
      with_table new_partition_table (
        rounds none
          (new_partition_aware_match_engine fresh_manager "node-a")
          ((pos 1, table) ∷ []))) in
    ((submit_order (λ o. o.symbol) pa order ≡ not_locally_owned)
      ↔ (serves "node-a" "ETHUSDT" new_partition_table.partitions ≡ false))
    × ((submit_order (λ o. o.symbol) pa order ≡ passed_on order.symbol)
        ↔ (serves "node-a" "ETHUSDT" new_partition_table.partitions ≡ true))
submit_order_iff_example =
    submit_order_iff (λ o. o.symbol) none fresh_manager "node-a" ((pos 1, table) ∷ []) (pos 2)
      new_partition_table order
