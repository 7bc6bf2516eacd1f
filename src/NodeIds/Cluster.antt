-- ===== src/NodeIds/Cluster.antt =====
-- The nodes of a cluster, each with its manager, over one Consul: their requests in any order, with
-- calls and restarts of the processes at any time.
use cex_hertz_backend.Base.{ℕ, ℤ, String, none, ◌≡◌, ◌≢◌}
use mathlib.Core.Logic.{ite}
use native.Mathlib.Decide.{ℕ_discrete}
use cex_hertz_backend.NodeIds.Consul.{Codec, Consul}
use cex_hertz_backend.NodeIds.Manager.{
  NodeIdManager, Wire, new_node_id_manager, get_or_allocate_node_id, advance, node_id_counter_key,
  registry_key,
}

abbrev pub update {ℓ} : {A : Type ℓ} → (ℕ → A) → ℕ → A → ℕ → A
update f i a j = ite (ℕ_discrete i j) a (f j)

module _ (C : Codec) (K : Consul C.Bytes) where
  open K use {Store, get}

  pub record System : Type 0 where
    pub store : Store
    pub nodes : ℕ → NodeIdManager

  -- A call of GetOrAllocateNodeID, and a restart, which makes a new manager for the same address.
  -- Both may come wherever the old call stands, though the mutex makes a second call wait: these are
  -- more runs than the code has.
  pub data Step (t : System) : System → Type 0 where
    call :
        (i : ℕ)
        → Step t (record t { nodes = update t.nodes i (get_or_allocate_node_id (t.nodes i)) })
    restart :
        (i : ℕ)
        → Step t (record t { nodes = update t.nodes i (new_node_id_manager (t.nodes i).node_addr) })
    request :
        (i : ℕ) (wire : Wire) (now : ℤ)
        → Step t (record {
          store = (advance C K wire now (t.nodes i) t.store).1;
          nodes = update t.nodes i (advance C K wire now (t.nodes i) t.store).0;
        })

  pub data Reach (t : System) : System → Type 0 where
    here : Reach t t
    next : {u v : System} → Reach t u → Step u v → Reach t v

  -- No two nodes share an address, and none has the name of the counter.
  pub record Apart (addr : ℕ → String) : Type 0 where
    pub addrs : (i j : ℕ) → i ≢ j → addr i ≢ addr j
    pub counter : (i : ℕ) → addr i ≢ "next_id"

  -- A new cluster: no counter, no entry, and no call under way.
  pub record Fresh (addr : ℕ → String) (t : System) : Type 0 where
    pub nodes : (i : ℕ) → t.nodes i ≡ new_node_id_manager (addr i)
    pub counter : get t.store node_id_counter_key ≡ none
    pub entries : (i : ℕ) → get t.store (registry_key (addr i)) ≡ none
