-- ===== src/Partition/Symbols.antt =====
-- `GetSymbolsForWorker` of biz/model/partition.go. The loops over maps run in the order of the list
-- that stands for the map.
use cex_hertz_backend.Base.{
  String, str_eq, str_eq_iff, Bool, true, false, not, ◌&&◌, ◌||◌, List, [], ◌∷◌, Dict, insert, ◌≡◌,
  refl, arith, if◌then◌else◌,
}
use cex_hertz_backend.Partition.Table.{Partition, PartitionTable}

-- symbolSet[symbol] = struct{}{}, for each symbol of a partition
unfoldable pub add_symbols : List String → Dict Bool → Dict Bool
add_symbols [] set = set
add_symbols (x ∷ xs) set = add_symbols xs (insert x true set)

-- The loop over the workers of a partition.
unfoldable pub scan_workers : String → List String → List String → Dict Bool → Dict Bool
scan_workers addr [] symbols set = set
scan_workers addr (w ∷ ws) symbols set =
    scan_workers addr ws symbols (if str_eq w addr then add_symbols symbols set else set)

unfoldable pub scan_partitions : String → Dict Partition → Dict Bool → Dict Bool
scan_partitions addr [] set = set
scan_partitions addr ((k, p) ∷ ps) set =
    scan_partitions addr ps (scan_workers addr p.workers p.symbols set)

unfoldable pub keys : Dict Bool → List String
keys [] = []
keys ((k, b) ∷ set) = k ∷ keys set

unfoldable pub get_symbols_for_worker : PartitionTable → String → List String
get_symbols_for_worker pt addr = keys (scan_partitions addr pt.partitions [])

abbrev pub contains : String → List String → Bool
contains s [] = false
contains s (x ∷ xs) = str_eq x s || contains s xs

abbrev pub distinct : List String → Bool
distinct [] = true
distinct (x ∷ xs) = not (contains x xs) && distinct xs

-- Some partition has the worker and the symbol.
abbrev pub serves : String → String → Dict Partition → Bool
serves addr s [] = false
serves addr s ((k, p) ∷ ps) = (contains addr p.workers && contains s p.symbols) || serves addr s ps

pub keys-insert :
    (s x : String) (set : Dict Bool)
    → contains s (keys (insert x true set)) ≡ (str_eq x s || contains s (keys set))
unfolding keys insert
keys-insert s x [] = refl
keys-insert s x ((k, b) ∷ set) =
    ground (arith, keys-insert s x set, str_eq_iff k x, str_eq_iff k s, str_eq_iff x s)

keys-add_symbols :
    (s : String) (xs : List String) (set : Dict Bool)
    → contains s (keys (add_symbols xs set)) ≡ (contains s xs || contains s (keys set))
unfolding add_symbols
keys-add_symbols s [] set = refl
keys-add_symbols s (x ∷ xs) set =
    ground (arith, keys-add_symbols s xs (insert x true set), keys-insert s x set)

keys-scan_workers :
    (s addr : String) (ws symbols : List String) (set : Dict Bool)
    → contains s (keys (scan_workers addr ws symbols set))
      ≡ ((contains addr ws && contains s symbols) || contains s (keys set))
unfolding scan_workers
keys-scan_workers s addr [] symbols set = refl
keys-scan_workers s addr (w ∷ ws) symbols set = ground (
  arith,
  keys-scan_workers s addr ws symbols (if str_eq w addr then add_symbols symbols set else set),
  keys-add_symbols s symbols set,
)

keys-scan_partitions :
    (s addr : String) (ps : Dict Partition) (set : Dict Bool)
    → contains s (keys (scan_partitions addr ps set)) ≡ (serves addr s ps || contains s (keys set))
unfolding scan_partitions
keys-scan_partitions s addr [] set = refl
keys-scan_partitions s addr ((k, p) ∷ ps) set = ground (
  arith,
  keys-scan_partitions s addr ps (scan_workers addr p.workers p.symbols set),
  keys-scan_workers s addr p.workers p.symbols set,
)

distinct-insert :
    (x : String) (set : Dict Bool)
    → distinct (keys set) ≡ true
    → distinct (keys (insert x true set)) ≡ true
unfolding keys insert
distinct-insert x [] h = refl
distinct-insert x ((k, b) ∷ set) h =
    ground (arith, distinct-insert x set, keys-insert k x set, str_eq_iff k x, str_eq_iff x k)

distinct-add_symbols :
    (xs : List String) (set : Dict Bool)
    → distinct (keys set) ≡ true
    → distinct (keys (add_symbols xs set)) ≡ true
unfolding add_symbols
distinct-add_symbols [] set h = h
distinct-add_symbols (x ∷ xs) set h =
    distinct-add_symbols xs (insert x true set) (distinct-insert x set h)

distinct-scan_workers :
    (addr : String) (ws symbols : List String) (set : Dict Bool)
    → distinct (keys set) ≡ true
    → distinct (keys (scan_workers addr ws symbols set)) ≡ true
unfolding scan_workers
distinct-scan_workers addr [] symbols set h = h
distinct-scan_workers addr (w ∷ ws) symbols set h =
    distinct-scan_workers addr ws symbols _ (ground (arith, distinct-add_symbols symbols set))

distinct-scan_partitions :
    (addr : String) (ps : Dict Partition) (set : Dict Bool)
    → distinct (keys set) ≡ true
    → distinct (keys (scan_partitions addr ps set)) ≡ true
unfolding scan_partitions
distinct-scan_partitions addr [] set h = h
distinct-scan_partitions addr ((k, p) ∷ ps) set h =
    distinct-scan_partitions addr ps (scan_workers addr p.workers p.symbols set)
      (distinct-scan_workers addr p.workers p.symbols set h)

-- GetSymbolsForWorker lists exactly the symbols of the partitions that have the worker, each of them
-- once.
pub get_symbols_for_worker_lem :
    (pt : PartitionTable) (addr s : String)
    → (contains s (get_symbols_for_worker pt addr) ≡ serves addr s pt.partitions)
      × (distinct (get_symbols_for_worker pt addr) ≡ true)
unfolding get_symbols_for_worker keys
get_symbols_for_worker_lem pt addr s = (
  ground (arith, keys-scan_partitions s addr pt.partitions []),
  distinct-scan_partitions addr pt.partitions [] refl,
)
