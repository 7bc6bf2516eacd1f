-- ===== src/NodeIds/Frame.antt =====
-- What a request leaves alone: the node's address, the entries of other nodes, and the node's own
-- entry where it can be read.
use cex_hertz_backend.Base.{ℕ, ℤ, String, some, ◌≡◌, ◌≢◌, inl, inr, refl, arith, Bool-cases}
use cex_hertz_backend.NodeIds.Consul.{Codec, Consul}
use cex_hertz_backend.NodeIds.Manager.{
  NodeIdManager, Stage, Wire, answered, lost, done, at_stage, fail, queried, counted, swapped,
  next_bytes, entry_bytes, node_id_counter_key, registry_key,
}
use cex_hertz_backend.NodeIds.Invariant.{Fits}
use cex_hertz_backend.NodeIds.Requests.{entry_in, index_in, count_in}

module _ (C : Codec) (K : Consul C.Bytes) where
  open C use {Bytes}
  open K use {Store, get}

  -- An entry that can be read stays.
  pub at_stage_entry :
      (m : NodeIdManager) (s : Store) (st : Stage) (wire : Wire) (now : ℤ) (a : ℕ)
      → Fits st (entry_in C K m.node_addr s) (index_in C K s) (count_in C K s)
      → entry_in C K m.node_addr s ≡ some a
      → entry_in C K m.node_addr (at_stage C K st wire now m s).1 ≡ some a
  unfolding at_stage
  at_stage_entry m s Stage.idle wire now a f e = e
  at_stage_entry m s Stage.querying answered now a f e = e
  at_stage_entry m s Stage.querying lost now a f e = e
  at_stage_entry m s Stage.querying done now a f e = e
  at_stage_entry m s (Stage.counting attempt) wire now a f e = absurd (cc)
  at_stage_entry m s (Stage.swapping attempt current index) wire now a f e = absurd (cc (f.0, e))
  at_stage_entry m s (Stage.saving id) wire now a f e = absurd (cc)
  at_stage_entry m s (Stage.returned id) wire now a f e = e
  at_stage_entry m s (Stage.failed why) wire now a f e = e

  pub at_stage_addr :
      (st : Stage) (wire : Wire) (now : ℤ) (m : NodeIdManager) (s : Store)
      → (at_stage C K st wire now m s).0.node_addr ≡ m.node_addr
  unfolding at_stage queried counted swapped fail
  at_stage_addr Stage.idle wire now m s = refl
  at_stage_addr Stage.querying answered now m s = ground arith
  at_stage_addr Stage.querying lost now m s = refl
  at_stage_addr Stage.querying done now m s = refl
  at_stage_addr (Stage.counting attempt) wire now m s = ground arith
  at_stage_addr (Stage.swapping attempt current index) answered now m s =
      elim (Bool-cases (K.cas s node_id_counter_key (next_bytes C K current) index).1) [
        | inl h ↦ rw h refl
        | inr h ↦ rw h refl
      ]
  at_stage_addr (Stage.swapping attempt current index) lost now m s = refl
  at_stage_addr (Stage.swapping attempt current index) done now m s = refl
  at_stage_addr (Stage.saving id) answered now m s = refl
  at_stage_addr (Stage.saving id) lost now m s = refl
  at_stage_addr (Stage.saving id) done now m s = refl
  at_stage_addr (Stage.returned id) wire now m s = refl
  at_stage_addr (Stage.failed why) wire now m s = refl

  -- The keys of the other nodes are left alone.
  pub at_stage_other :
      (st : Stage) (wire : Wire) (now : ℤ) (m : NodeIdManager) (s : Store) (k : String)
      → registry_key m.node_addr ≢ k
      → node_id_counter_key ≢ k
      → get (at_stage C K st wire now m s).1 k ≡ get s k
  unfolding at_stage
  at_stage_other Stage.idle wire now m s k own counter = refl
  at_stage_other Stage.querying answered now m s k own counter = refl
  at_stage_other Stage.querying lost now m s k own counter = refl
  at_stage_other Stage.querying done now m s k own counter = refl
  at_stage_other (Stage.counting attempt) wire now m s k own counter = ground arith
  at_stage_other (Stage.swapping attempt current index) answered now m s k own counter =
      K.cas_other s node_id_counter_key k (next_bytes C K current) index counter
  at_stage_other (Stage.swapping attempt current index) lost now m s k own counter = refl
  at_stage_other (Stage.swapping attempt current index) done now m s k own counter =
      K.cas_other s node_id_counter_key k (next_bytes C K current) index counter
  at_stage_other (Stage.saving id) answered now m s k own counter =
      K.get-put_other s (registry_key m.node_addr) k (entry_bytes C K m id now) own
  at_stage_other (Stage.saving id) lost now m s k own counter = refl
  at_stage_other (Stage.saving id) done now m s k own counter =
      K.get-put_other s (registry_key m.node_addr) k (entry_bytes C K m id now) own
  at_stage_other (Stage.returned id) wire now m s k own counter = refl
  at_stage_other (Stage.failed why) wire now m s k own counter = refl
