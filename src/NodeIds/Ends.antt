-- ===== src/NodeIds/Ends.antt =====
-- A call of GetOrAllocateNodeID ends.
use cex_hertz_backend.Base.{
  ℕ, ◌+◌, ◌-◌, ◌*◌, ◌≤◌, ◌<◌, ℤ, Bool, true, false, Option, none, some, List, [], ◌∷◌, ◌≡◌, ◌⊎◌,
  inl, inr, refl, arith, Bool-cases, length, ltb, leb, str_eq,
}
use cex_hertz_backend.NodeIds.Consul.{Codec, KvPair, Consul, NodeIdEntry}
use cex_hertz_backend.NodeIds.Manager.{
  NodeIdManager, get_or_allocate_node_id, Stage, NodeIdError, Wire, answered, lost, done, at_stage,
  advance, fail, queried, counted, swapped, next_bytes, node_id_counter_key, registry_key,
  max_retries, counter_unread, current_id,
}

-- Requests that are left at most.
abbrev left : Stage → ℕ
left Stage.idle = 0
left Stage.querying = 8
left (Stage.counting attempt) = 2 * (3 - attempt) + 1
left (Stage.swapping attempt current index) = 2 * (3 - attempt)
left (Stage.saving id) = 1
left (Stage.returned id) = 0
left (Stage.failed why) = 0

-- A call is under way or over, and swaps only in the rounds of its loop.
abbrev Within : Stage → Type 0
Within (Stage.swapping attempt current index) = attempt < 3
Within Stage.idle = ⊥
Within Stage.querying = Unit
Within (Stage.counting attempt) = Unit
Within (Stage.saving id) = Unit
Within (Stage.returned id) = Unit
Within (Stage.failed why) = Unit

abbrev pub Over : Stage → Type 0
Over st = ((id : ℕ) × (st ≡ Stage.returned id)) ⊎ ((why : NodeIdError) × (st ≡ Stage.failed why))

module _ (C : Codec) (K : Consul C.Bytes) where
  open C use {Bytes}
  open K use {Store, get}

  -- The requests of one call, each with what comes of it and the store that other nodes have made of
  -- Consul by then.
  unfoldable pub drive : List (Wire × ℤ × Store) → NodeIdManager → NodeIdManager
  drive [] m = m
  drive ((wire, now, s) ∷ rest) m = drive rest (advance C K wire now m s).0

  abbrev Falls : ℕ → NodeIdManager → Type 0
  Falls n m = (left m.stage ≤ n - 1) × Within m.stage

  queried-Falls : (m : NodeIdManager) (o : Option (KvPair Bytes)) → Falls 8 (queried C K m o)
  unfolding queried
  queried-Falls m none = (omega arith, tt)
  queried-Falls m (some pair) = by_entry (C.unmarshal_entry pair.value) refl
    where
      by_entry :
          (e : Option NodeIdEntry)
          → C.unmarshal_entry pair.value ≡ e
          → Falls 8 (queried C K m (some pair))
      by_entry none q = rw (queried, q) (omega arith, tt)
      by_entry (some e) q = rw (queried, q) (omega arith, tt)

  counted-Falls :
      (m : NodeIdManager) (attempt : ℕ) (o : Option (KvPair Bytes))
      → attempt < 3
      → Falls (2 * (3 - attempt) + 1) (counted C K m attempt o)
  unfolding counted
  counted-Falls m attempt o l = elim (Bool-cases (ltb 1023 (current_id C K o))) [
    | inl out ↦ rw out (omega arith, tt)
    | inr fit ↦ rw fit (omega arith, l)
  ]

  swapped-Falls :
      (m : NodeIdManager) (attempt current : ℕ) (won : Bool)
      → attempt < 3
      → Falls (2 * (3 - attempt)) (swapped C K m attempt current won)
  unfolding swapped
  swapped-Falls m attempt current true l = (omega arith, tt)
  swapped-Falls m attempt current false l = (omega arith, tt)

  at_stage-Falls :
      (st : Stage) (wire : Wire) (now : ℤ) (m : NodeIdManager) (s : Store)
      → m.stage ≡ st
      → Within st
      → Falls (left st) (at_stage C K st wire now m s).0
  unfolding at_stage fail
  at_stage-Falls Stage.idle wire now m s q w = absurd w
  at_stage-Falls Stage.querying answered now m s q w =
      queried-Falls m (get s (registry_key m.node_addr))
  at_stage-Falls Stage.querying lost now m s q w = (omega arith, tt)
  at_stage-Falls Stage.querying done now m s q w = (omega arith, tt)
  at_stage-Falls (Stage.counting attempt) wire now m s q w =
      elim (Bool-cases (leb max_retries attempt)) [
        | inl spent ↦ rw spent (omega arith, tt)
        | inr more ↦ rw more (by_wire wire (ground arith))
      ]
    where
      by_wire :
          (wire : Wire)
          → attempt < 3
          → Falls (2 * (3 - attempt) + 1) (
              let r : NodeIdManager × Store = elim wire [
                | answered ↦ (counted C K m attempt (get s node_id_counter_key), s)
                | _ ↦ (fail C K m counter_unread, s)
              ] in
              r.0)
      by_wire answered l = counted-Falls m attempt (get s node_id_counter_key) l
      by_wire lost l = (omega arith, tt)
      by_wire done l = (omega arith, tt)
  at_stage-Falls (Stage.swapping attempt current index) answered now m s q w =
      swapped-Falls m attempt current (K.cas s node_id_counter_key (next_bytes C K current) index).1
        w
  at_stage-Falls (Stage.swapping attempt current index) lost now m s q w = (omega arith, tt)
  at_stage-Falls (Stage.swapping attempt current index) done now m s q w = (omega arith, tt)
  at_stage-Falls (Stage.saving id) answered now m s q w = (omega arith, tt)
  at_stage-Falls (Stage.saving id) lost now m s q w = (omega arith, tt)
  at_stage-Falls (Stage.saving id) done now m s q w = (omega arith, tt)
  at_stage-Falls (Stage.returned id) wire now m s q w = rw q (omega arith, tt)
  at_stage-Falls (Stage.failed why) wire now m s q w = rw q (omega arith, tt)

  Over-left : (st : Stage) → Within st → left st ≤ 0 → Over st
  Over-left Stage.idle w l = absurd w
  Over-left Stage.querying w l = absurd (omega arith)
  Over-left (Stage.counting attempt) w l = absurd (omega arith)
  Over-left (Stage.swapping attempt current index) w l = absurd (omega arith)
  Over-left (Stage.saving id) w l = absurd (omega arith)
  Over-left (Stage.returned id) w l = inl (id, refl)
  Over-left (Stage.failed why) w l = inr (why, refl)

  drive-Over :
      (rs : List (Wire × ℤ × Store)) (m : NodeIdManager)
      → Within m.stage
      → left m.stage ≤ length rs
      → Over (drive rs m).stage
  unfolding drive advance
  drive-Over [] m w l = Over-left m.stage w l
  drive-Over ((wire, now, s) ∷ rest) m w l =
      let f = at_stage-Falls m.stage wire now m s refl w in
      drive-Over rest (at_stage C K m.stage wire now m s).0 f.1 (omega (arith, f.0, l))

  -- A call of GetOrAllocateNodeID has returned a number or an error behind eight requests at most,
  -- whatever other nodes have made of Consul's store before each and however each fares.
  pub get_or_allocate_node_id_ends :
      (m : NodeIdManager) (rs : List (Wire × ℤ × Store))
      → 8 ≤ length rs
      → Over (drive rs (get_or_allocate_node_id m)).stage
  unfolding get_or_allocate_node_id
  get_or_allocate_node_id_ends m rs l = elim (Bool-cases (str_eq m.node_addr "")) [
    | inl h ↦ rw h (drive-Over rs _ tt (omega arith))
    | inr h ↦ rw h (drive-Over rs _ tt l)
  ]
