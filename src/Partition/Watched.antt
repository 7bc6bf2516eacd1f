-- ===== src/Partition/Watched.antt =====
-- The symbols that the engine takes orders for.
use cex_hertz_backend.Base.{
  ℤ, String, str_eq, str_eq_iff, Bool, true, false, not, ◌&&◌, ◌||◌, Option, none, some, List, [],
  ◌∷◌, Dict, erase, ◌≡◌, ◌↔◌, refl, sym, ap, ◌∙◌, arith, if◌then◌else◌,
}
use cex_hertz_backend.Ownership.Types.{TransferCoordinator}
use cex_hertz_backend.Engine.Types.{SubmitOrderMsg}
use cex_hertz_backend.Partition.Table.{PartitionTable}
use cex_hertz_backend.Partition.Manager.{PartitionManager, get_partition_table}
use cex_hertz_backend.Partition.Symbols.{
  contains, keys, serves, keys-insert, scan_partitions, get_symbols_for_worker,
  get_symbols_for_worker_lem,
}
use cex_hertz_backend.Partition.Aware.{
  PartitionAwareMatchEngine, turn, watch_new, unwatch_old, in_last, last_keys, load_or_store,
  submit_order, not_locally_owned, passed_on, new_partition_aware_match_engine,
}

keys-erase :
    (s x : String) (set : Dict Bool)
    → contains s (keys (erase x set)) ≡ (not (str_eq x s) && contains s (keys set))
unfolding keys erase
keys-erase s x [] = ground arith
keys-erase s x ((k, b) ∷ set) =
    ground (arith, keys-erase s x set, str_eq_iff k x, str_eq_iff k s, str_eq_iff x s)

keys-load_or_store :
    (s x : String) (watched : Dict Bool)
    → contains s (keys (load_or_store x watched)) ≡ (str_eq x s || contains s (keys watched))
keys-load_or_store s x watched = ground (arith, keys-insert s x watched, str_eq_iff x s)

keys-watch_new :
    (s : String) (last : Option (Dict Bool)) (symbols : List String) (watched : Dict Bool)
    → contains s (keys (watch_new last symbols watched))
      ≡ (contains s (keys watched) || (contains s symbols && not (in_last s last)))
unfolding watch_new
keys-watch_new s last [] watched = ground arith
keys-watch_new s last (x ∷ xs) watched = ground (
  arith,
  keys-watch_new s last xs (if in_last x last then watched else load_or_store x watched),
  keys-load_or_store s x watched,
  str_eq_iff x s,
)

keys-unwatch_old :
    (s : String) (last : List String) (mine watched : Dict Bool)
    → contains s (keys (unwatch_old last mine watched))
      ≡ (contains s (keys watched) && not (contains s last && not (contains s (keys mine))))
unfolding unwatch_old
keys-unwatch_old s [] mine watched = ground arith
keys-unwatch_old s (x ∷ xs) mine watched = ground (
  arith,
  keys-unwatch_old s xs mine (if contains x (keys mine) then watched else erase x watched),
  keys-erase s x watched,
  str_eq_iff x s,
)

-- What is watched are the symbols of the last round.
abbrev Steady : PartitionAwareMatchEngine → Type 0
Steady pa = (s : String) → contains s (keys pa.watched_symbols) ≡ in_last s pa.last_symbols

last_keys_lem :
    (s : String) (last : Option (Dict Bool)) → contains s (last_keys last) ≡ in_last s last
last_keys_lem s none = refl
last_keys_lem s (some last) = refl

turn-keys :
    (now : ℤ) (tc : Option TransferCoordinator) (pa : PartitionAwareMatchEngine) (s : String)
    → Steady pa
    → (contains s (keys (turn now tc pa).watched_symbols)
        ≡ serves pa.local_addr s (pa.pm.cache).partitions)
      × (in_last s (turn now tc pa).last_symbols ≡ serves pa.local_addr s (pa.pm.cache).partitions)
unfolding turn get_partition_table get_symbols_for_worker
turn-keys now tc pa s steady =
    let mine = scan_partitions pa.local_addr (pa.pm.cache).partitions [] in
    let old = steady s in
    let ours = (get_symbols_for_worker_lem pa.pm.cache pa.local_addr s).0 in
    (
      ground (
        arith,
        keys-unwatch_old s (last_keys pa.last_symbols) mine
            (watch_new pa.last_symbols (keys mine) pa.watched_symbols),
        keys-watch_new s pa.last_symbols (keys mine) pa.watched_symbols,
        last_keys_lem s pa.last_symbols,
      ),
      ours,
    )

-- Rounds of the loop, each with the time and the table that it finds.
abbrev pub with_table : PartitionTable → PartitionAwareMatchEngine → PartitionAwareMatchEngine
with_table pt pa = record pa { pm = record (pa.pm) { cache = pt } }

unfoldable pub rounds :
    Option TransferCoordinator
    → PartitionAwareMatchEngine
    → List (ℤ × PartitionTable)
    → PartitionAwareMatchEngine
rounds tc pa [] = pa
rounds tc pa ((now, pt) ∷ rest) = rounds tc (turn now tc (with_table pt pa)) rest

turn_addr :
    (now : ℤ) (tc : Option TransferCoordinator) (pa : PartitionAwareMatchEngine)
    → (turn now tc pa).local_addr ≡ pa.local_addr
unfolding turn
turn_addr now tc pa = refl

new-Steady :
    (pm : PartitionManager) (addr : String)
    → Steady (new_partition_aware_match_engine pm addr)
      × ((new_partition_aware_match_engine pm addr).local_addr ≡ addr)
unfolding new_partition_aware_match_engine keys
new-Steady pm addr = (λ s. refl, refl)

submit_order_lem :
    {A : Type 0} (base : SubmitOrderMsg → A) (pa : PartitionAwareMatchEngine)
    (order : SubmitOrderMsg) (owns : Bool)
    → contains order.symbol (keys pa.watched_symbols) ≡ owns
    → ((submit_order base pa order ≡ not_locally_owned) ↔ (owns ≡ false))
      × ((submit_order base pa order ≡ passed_on (base order)) ↔ (owns ≡ true))
unfolding submit_order
submit_order_lem base pa order true h = rw h ((λ e. cc e, λ e. cc e), (λ e. refl, λ e. refl))
submit_order_lem base pa order false h = rw h ((λ e. refl, λ e. refl), (λ e. cc e, λ e. cc e))

turn-Steady :
    (now : ℤ) (tc : Option TransferCoordinator) (pt : PartitionTable)
    (pa : PartitionAwareMatchEngine)
    → Steady pa
    → Steady (turn now tc (with_table pt pa))
turn-Steady now tc pt pa steady s =
    let k = turn-keys now tc (with_table pt pa) s steady in k.0 ∙ sym k.1

rounds-Steady :
    (tc : Option TransferCoordinator) (pa : PartitionAwareMatchEngine)
    (rest : List (ℤ × PartitionTable))
    → Steady pa
    → Steady (rounds tc pa rest) × ((rounds tc pa rest).local_addr ≡ pa.local_addr)
unfolding rounds
rounds-Steady tc pa [] steady = (steady, refl)
rounds-Steady tc pa ((now, pt) ∷ rest) steady =
    let next =
      rounds-Steady tc (turn now tc (with_table pt pa)) rest (turn-Steady now tc pt pa steady) in
    (next.0, next.1 ∙ turn_addr now tc (with_table pt pa))

-- Behind any rounds of the loop of a new engine, the last of which finds a table, an order is refused
-- as not owned by this node exactly when no partition of that table has both this node and the
-- order's symbol, and else it goes to the engine underneath.
pub submit_order_iff :
    {A : Type 0} (base : SubmitOrderMsg → A) (tc : Option TransferCoordinator)
    (pm : PartitionManager) (addr : String) (before : List (ℤ × PartitionTable)) (now : ℤ)
    (pt : PartitionTable) (order : SubmitOrderMsg)
    → let pa =
        turn now tc (with_table pt (rounds tc (new_partition_aware_match_engine pm addr) before)) in
      ((submit_order base pa order ≡ not_locally_owned)
        ↔ (serves addr order.symbol pt.partitions ≡ false))
      × ((submit_order base pa order ≡ passed_on (base order))
          ↔ (serves addr order.symbol pt.partitions ≡ true))
submit_order_iff base tc pm addr before now pt order =
    let new = new-Steady pm addr in
    let start = rounds-Steady tc (new_partition_aware_match_engine pm addr) before new.0 in
    let pa = with_table pt (rounds tc (new_partition_aware_match_engine pm addr) before) in
    let k = turn-keys now tc pa order.symbol start.0 in
    submit_order_lem base (turn now tc pa) order (serves addr order.symbol pt.partitions)
      (k.0 ∙ ap (λ a. serves a order.symbol pt.partitions) (start.1 ∙ new.1))
