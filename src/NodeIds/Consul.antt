-- ===== src/NodeIds/Consul.antt =====
-- Consul's key-value store as github.com/hashicorp/consul/api offers it, and the codecs of
-- encoding/json and fmt for what biz/service/node_id_manager.go stores in it. Both are parameters.
use cex_hertz_backend.Base.{ℕ, ◌^◌, ◌<◌, ℤ, String, Bool, true, false, Option, none, some, ◌≡◌, ◌≢◌}

pub record NodeIdEntry : Type 0 where
  pub node_id : ℕ
  pub node_addr : String
  pub timestamp : ℤ

-- The bytes of a value. `unmarshal_entry` is `none` on an error, `scan_id` leaves 0 on one.
pub record Codec : Type 1 where
  pub Bytes : Type 0
  pub marshal_entry : NodeIdEntry → Bytes
  pub unmarshal_entry : Bytes → Option NodeIdEntry
  pub print_id : ℕ → Bytes
  pub scan_id : Bytes → ℕ
  pub unmarshal-marshal : (e : NodeIdEntry) → unmarshal_entry (marshal_entry e) ≡ some e
  pub scan-print : (n : ℕ) → n < 2 ^ 64 → scan_id (print_id n) ≡ n

pub record KvPair (B : Type 0) : Type 0 where
  pub value : B
  pub modify_index : ℕ

-- The index of a key; that of a missing key is 0.
abbrev pub index_of : {B : Type 0} → Option (KvPair B) → ℕ
index_of none = 0
index_of (some pair) = pair.modify_index

-- A check-and-set writes exactly if the index is the key's own, and every write of a key raises its
-- index. Each key is by itself.
pub record Consul (B : Type 0) : Type 1 where
  pub Store : Type 0
  pub get : Store → String → Option (KvPair B)
  pub put : Store → String → B → Store
  pub cas : Store → String → B → ℕ → Store × Bool
  pub get-put :
      (s : Store) (k : String) (v : B)
      → (i : ℕ) × (get (put s k v) k ≡ some (record { value = v; modify_index = i }))
        × (index_of (get s k) < i)
  pub get-put_other : (s : Store) (k j : String) (v : B) → k ≢ j → get (put s k v) j ≡ get s j
  pub cas_taken :
      (s : Store) (k : String) (v : B) (i : ℕ)
      → (cas s k v i).1 ≡ true
      → (index_of (get s k) ≡ i)
        × ((j : ℕ) × (get (cas s k v i).0 k ≡ some (record { value = v; modify_index = j }))
            × (i < j))
  pub cas_refused :
      (s : Store) (k : String) (v : B) (i : ℕ) → (cas s k v i).1 ≡ false → (cas s k v i).0 ≡ s
  pub cas_other :
      (s : Store) (k j : String) (v : B) (i : ℕ) → k ≢ j → get (cas s k v i).0 j ≡ get s j
