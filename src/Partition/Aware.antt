-- ===== src/Partition/Aware.antt =====
-- `PartitionAwareMatchEngine` of biz/service/partition_aware_match_engine.go, less the parts that it
-- builds and passes on. The maps are looped over in the order of the lists that stand for them.
use cex_hertz_backend.Base.{
  ℤ, String, Bool, true, false, Option, none, some, List, [], ◌∷◌, Dict, insert, erase,
  if◌then◌else◌,
}
use cex_hertz_backend.Ownership.Types.{OwnershipStateMachine, TransferCoordinator, new_machine}
use cex_hertz_backend.Engine.Types.{SubmitOrderMsg}
use cex_hertz_backend.Partition.Table.{Partition}
use cex_hertz_backend.Partition.Symbols.{contains, keys, scan_partitions}
use cex_hertz_backend.Partition.Manager.{
  PartitionManager, get_partition_table, get_ownership_fsm, register_ownership_fsm,
  unregister_ownership_fsm, list_registered_fsms, watch_partition_table,
}

-- `last_symbols` is the variable of the loop; `none` is nil.
pub record PartitionAwareMatchEngine : Type 0 where
  pub pm : PartitionManager
  pub local_addr : String
  pub watched_symbols : Dict Bool
  pub last_symbols : Option (Dict Bool)
  pub cancelled : Bool

-- With the loop started.
unfoldable pub new_partition_aware_match_engine :
    PartitionManager → String → PartitionAwareMatchEngine
new_partition_aware_match_engine pm addr = record {
  pm = watch_partition_table pm;
  local_addr = addr;
  watched_symbols = [];
  last_symbols = none;
  cancelled = false;
}

-- A machine for a partition of this node that has none.
unfoldable pub claim :
    ℤ
    → Option TransferCoordinator
    → String
    → String
    → Partition
    → PartitionManager
    → PartitionManager
claim now coordinator addr pid p pm = elim (get_ownership_fsm pid pm) [
  | none ↦ register_ownership_fsm pid (some (new_machine now coordinator pid addr p.symbols)) pm
  | some fsm ↦ pm
]

unfoldable pub take_over :
    ℤ → Option TransferCoordinator → String → Dict Partition → PartitionManager → PartitionManager
take_over now coordinator addr [] pm = pm
take_over now coordinator addr ((pid, p) ∷ ps) pm =
    take_over now coordinator addr ps
      (if contains addr p.workers then claim now coordinator addr pid p pm else pm)

-- The partitions of this node.
unfoldable pub curr_owned : String → Dict Partition → List String
curr_owned addr [] = []
curr_owned addr ((pid, p) ∷ ps) =
    if contains addr p.workers then pid ∷ curr_owned addr ps else curr_owned addr ps

unfoldable pub give_up :
    List String → Dict (Option OwnershipStateMachine) → PartitionManager → PartitionManager
give_up owned [] pm = pm
give_up owned ((pid, fsm) ∷ registered) pm =
    give_up owned registered (if contains pid owned then pm else unregister_ownership_fsm pid pm)

abbrev pub in_last : String → Option (Dict Bool) → Bool
in_last symbol none = false
in_last symbol (some last) = contains symbol (keys last)

-- LoadOrStore
abbrev pub load_or_store : String → Dict Bool → Dict Bool
load_or_store symbol watched =
    if contains symbol (keys watched) then watched else insert symbol true watched

unfoldable pub watch_new : Option (Dict Bool) → List String → Dict Bool → Dict Bool
watch_new last [] watched = watched
watch_new last (symbol ∷ symbols) watched =
    watch_new last symbols (if in_last symbol last then watched else load_or_store symbol watched)

unfoldable pub unwatch_old : List String → Dict Bool → Dict Bool → Dict Bool
unwatch_old [] mine watched = watched
unwatch_old (symbol ∷ last) mine watched =
    unwatch_old last mine (if contains symbol (keys mine) then watched else erase symbol watched)

abbrev pub last_keys : Option (Dict Bool) → List String
last_keys none = []
last_keys (some last) = keys last

-- A round of the loop of watchPartitionChange, where the context is not done.
unfoldable pub turn :
    ℤ → Option TransferCoordinator → PartitionAwareMatchEngine → PartitionAwareMatchEngine
turn now coordinator pa =
    let partitions = (get_partition_table pa.pm).partitions in
    let mine = scan_partitions pa.local_addr partitions [] in
    let pm' = take_over now coordinator pa.local_addr partitions pa.pm in
    record pa {
      pm = give_up (curr_owned pa.local_addr partitions) (list_registered_fsms pm') pm';
      watched_symbols =
          unwatch_old (last_keys pa.last_symbols) mine
            (watch_new pa.last_symbols (keys mine) pa.watched_symbols);
      last_symbols = some mine;
    }

pub data Submission (A : Type 0) : Type 0 where
  not_locally_owned : Submission A
  passed_on : A → Submission A

-- `base` is the SubmitOrder of the MatchEngine.
unfoldable pub submit_order :
    {A : Type 0} → (SubmitOrderMsg → A) → PartitionAwareMatchEngine → SubmitOrderMsg → Submission A
submit_order base pa order =
    if contains order.symbol (keys pa.watched_symbols)
    then passed_on (base order)
    else not_locally_owned

unfoldable pub shutdown : PartitionAwareMatchEngine → PartitionAwareMatchEngine
shutdown pa = record pa { cancelled = true }

unfoldable pub get_local_symbols : PartitionAwareMatchEngine → List String
get_local_symbols pa = keys pa.watched_symbols
