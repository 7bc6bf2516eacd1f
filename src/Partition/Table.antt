-- ===== src/Partition/Table.antt =====
-- The data of biz/model/partition.go and its copies. A map of pointers is a map of the values that
-- they point to: no code stores a nil pointer, and a copy is a new value.
use cex_hertz_backend.Base.{
  ℤ, String, Bool, Option, none, some, List, [], ◌∷◌, Dict, ◌≡◌, ◌↔◌, refl, ap, All, arith,
}

pub record Partition : Type 0 where
  pub partition_id : String
  pub symbols : List String
  pub workers : List String

pub record SymbolMigrationInfo : Type 0 where
  pub symbol : String
  pub from : String
  pub to : String
  pub migrating : Bool
  pub update_time : ℤ
  pub new_partition_id : String

pub record PartitionTable : Type 0 where
  pub symbol_to_partition : Dict (List String)
  pub partitions : Dict Partition
  pub migration_info : Dict SymbolMigrationInfo

unfoldable pub new_partition_table : PartitionTable
new_partition_table = record { symbol_to_partition = []; partitions = []; migration_info = [] }

-- make and copy
unfoldable pub copy_list : List String → List String
copy_list [] = []
copy_list (x ∷ xs) = x ∷ copy_list xs

unfoldable pub copy_partition : Partition → Partition
copy_partition p = record {
  partition_id = p.partition_id;
  symbols = copy_list p.symbols;
  workers = copy_list p.workers;
}

-- The literal names five of the six fields.
unfoldable pub copy_info : SymbolMigrationInfo → SymbolMigrationInfo
copy_info v = record {
  symbol = v.symbol;
  from = v.from;
  to = v.to;
  migrating = v.migrating;
  update_time = v.update_time;
  new_partition_id = "";
}

-- A loop over a map that fills a new one.
unfoldable pub copy_map : {V : Type 0} → (V → V) → Dict V → Dict V
copy_map copy [] = []
copy_map copy ((k, v) ∷ m) = (k, copy v) ∷ copy_map copy m

-- `none` is nil.
unfoldable pub deep_copy : Option PartitionTable → Option PartitionTable
deep_copy none = none
deep_copy (some pt) = some (record {
  symbol_to_partition = copy_map copy_list pt.symbol_to_partition;
  partitions = copy_map copy_partition pt.partitions;
  migration_info = copy_map copy_info pt.migration_info;
})

copy_list_lem : (xs : List String) → copy_list xs ≡ xs
unfolding copy_list
copy_list_lem [] = refl
copy_list_lem (x ∷ xs) = ap (λ t. x ∷ t) (copy_list_lem xs)

copy_map_lem :
    {V : Type 0} (copy : V → V) (m : Dict V) → ((v : V) → copy v ≡ v) → copy_map copy m ≡ m
unfolding copy_map
copy_map_lem copy [] h = refl
copy_map_lem copy ((k, v) ∷ m) h = rw (h v) (ap (λ t. (k, v) ∷ t) (copy_map_lem copy m h))

copy_partition_lem : (p : Partition) → copy_partition p ≡ p
unfolding copy_partition
copy_partition_lem p = rw (copy_list_lem p.symbols, copy_list_lem p.workers) refl

copy_infos_iff :
    (m : Dict SymbolMigrationInfo)
    → (copy_map copy_info m ≡ m) ↔ All (λ kv. kv.1.new_partition_id ≡ "") m
unfolding copy_map copy_info
copy_infos_iff [] = (λ h. tt, λ h. refl)
copy_infos_iff ((k, v) ∷ m) = let rest = copy_infos_iff m in ground arith

-- A copy of a table equals the table exactly when no symbol's migration names a new partition: the
-- copy keeps everything else and loses that name.
pub deep_copy_iff :
    (pt : PartitionTable)
    → (deep_copy (some pt) ≡ some pt) ↔ All (λ kv. kv.1.new_partition_id ≡ "") pt.migration_info
unfolding deep_copy
deep_copy_iff pt =
    let infos = copy_infos_iff pt.migration_info in
    let lists = copy_map_lem copy_list pt.symbol_to_partition copy_list_lem in
    let parts = copy_map_lem copy_partition pt.partitions copy_partition_lem in
    rw (lists, parts) (ground arith)
