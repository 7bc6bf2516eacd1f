-- ===== src/NodeIds/Requests.antt =====
-- What one request does to the number of its node and to the counter.
use cex_hertz_backend.Base.{
  ℕ, ◌+◌, ◌%◌, ◌^◌, ◌<◌, ℤ, String, Bool, true, false, Option, none, some, ltb, leb, ◌≡◌, ◌≢◌, ◌⊎◌,
  inl, inr, ap, sym, ◌∙◌, refl, arith, Bool-cases,
}
use cex_hertz_backend.NodeIds.Consul.{NodeIdEntry, Codec, KvPair, Consul, index_of}
use cex_hertz_backend.NodeIds.Manager.{
  NodeIdManager, Stage, Wire, cas_broken, not_saved, counter_unread, max_retries, answered, lost,
  done, at_stage, fail, queried, counted, swapped, current_id, parse_node_id, next_bytes,
  entry_bytes, node_id_counter_key, registry_key,
}
use cex_hertz_backend.NodeIds.Invariant.{held, Fits, Effect}

-- The number of an entry, if it can be read.
abbrev pub number_of : Option NodeIdEntry → Option ℕ
number_of none = none
number_of (some e) = some e.node_id

module _ (C : Codec) (K : Consul C.Bytes) where
  open C use {Bytes}
  open K use {Store, get}

  abbrev pub entry_id : Option (KvPair Bytes) → Option ℕ
  entry_id none = none
  entry_id (some pair) = number_of (C.unmarshal_entry pair.value)

  abbrev pub entry_in : String → Store → Option ℕ
  entry_in addr s = entry_id (get s (registry_key addr))

  abbrev pub index_in : Store → ℕ
  index_in s = index_of (get s node_id_counter_key)

  abbrev pub count_in : Store → ℕ
  count_in s = current_id C K (get s node_id_counter_key)

  queried-Fits :
      (m : NodeIdManager) (o : Option (KvPair Bytes)) (x c : ℕ)
      → (held (queried C K m o).stage (entry_id o) ≡ entry_id o)
        × Fits (queried C K m o).stage (entry_id o) x c
  unfolding queried
  queried-Fits m none x c = (refl, refl)
  queried-Fits m (some pair) x c = by_entry (C.unmarshal_entry pair.value) refl
    where
      by_entry :
          (e : Option NodeIdEntry)
          → C.unmarshal_entry pair.value ≡ e
          → (held (queried C K m (some pair)).stage (entry_id (some pair)) ≡ entry_id (some pair))
            × Fits (queried C K m (some pair)).stage (entry_id (some pair)) x c
      by_entry none q = rw (queried, q) (refl, refl)
      by_entry (some e) q = rw (queried, q) (refl, refl)

  counted-Fits :
      (m : NodeIdManager) (attempt : ℕ) (entry : Option ℕ) (o : Option (KvPair Bytes))
      → entry ≡ none
      → (held (counted C K m attempt o).stage entry ≡ entry)
        × Fits (counted C K m attempt o).stage entry (index_of o) (current_id C K o)
  unfolding counted
  counted-Fits m attempt entry o e = elim (Bool-cases (ltb 1023 (current_id C K o))) [
    | inl out ↦ rw out (refl, tt)
    | inr fit ↦ rw fit (refl, (e, ground arith, omega arith, λ _. refl))
  ]

  -- What a request does to its own node and to the counter.
  abbrev pub Good : Stage → NodeIdManager → Store → NodeIdManager × Store → Type 0
  Good st m s r =
      Effect (held st (entry_in m.node_addr s)) (index_in s) (count_in s)
        (held r.0.stage (entry_in m.node_addr r.1)) (index_in r.1) (count_in r.1)
      × Fits r.0.stage (entry_in m.node_addr r.1) (index_in r.1) (count_in r.1)

  module _ (m : NodeIdManager) (s : Store)
      (apart : registry_key m.node_addr ≢ node_id_counter_key) where
    -- The store behind the check-and-set.
    abbrev raised : ℕ → ℕ → Store × Bool
    raised current index = K.cas s node_id_counter_key (next_bytes C K current) index

    raised_entry :
        (current index : ℕ) → entry_in m.node_addr (raised current index).0 ≡ entry_in m.node_addr s
    raised_entry current index = ap entry_id (
        K.cas_other s node_id_counter_key (registry_key m.node_addr) (next_bytes C K current) index
          (λ q. apart (sym q)))

    raised_counter :
        (attempt current index : ℕ)
        → Fits
            (Stage.swapping attempt current index)
            (entry_in m.node_addr s)
            (index_in s)
            (count_in s)
        → (raised current index).1 ≡ true
        → (index_in s < index_in (raised current index).0)
          × (count_in (raised current index).0 ≡ count_in s + 1)
          × (current ≡ count_in s)
    unfolding next_bytes current_id parse_node_id
    raised_counter attempt current index f h =
        let t = K.cas_taken s node_id_counter_key (next_bytes C K current) index h in
        let same : current ≡ count_in s = f.3 (sym t.0) in
        let small : (current + 1) % 2 ^ 64 ≡ current + 1 = omega (arith, f.1) in
        let read : count_in (raised current index).0 ≡ current + 1 =
          rw t.1.1 (C.scan-print _ (omega arith) ∙ small) in
        (rw t.1.1 (omega (arith, t.0, t.1.2)), read ∙ ap (λ n. n + 1) same, same)

    -- A check-and-set that was done, answered or not, behind which the stage is `st`.
    raised-Good :
        (attempt current index : ℕ) (m' : NodeIdManager)
        → Fits
            (Stage.swapping attempt current index)
            (entry_in m.node_addr s)
            (index_in s)
            (count_in s)
        → (held m'.stage (entry_in m.node_addr s) ≡ some current)
          ⊎ (held m'.stage (entry_in m.node_addr s) ≡ entry_in m.node_addr s)
        → ((x c : ℕ) → Fits m'.stage (entry_in m.node_addr s) x c)
        → (raised current index).1 ≡ true
        → Good (Stage.swapping attempt current index) m s (m', (raised current index).0)
    raised-Good attempt current index m' f h fits won =
        let r = raised_counter attempt current index f won in
        rw (raised_entry current index) (
          inr (
            r.0,
            r.1,
            omega (arith, f.1, r.2),
            elim h [ inl k ↦ inl (k ∙ ap some r.2) | inr k ↦ inr k ],
          ),
          fits _ _,
        )

    -- A check-and-set that was refused.
    refused_store :
        (current index : ℕ) → (raised current index).1 ≡ false → (raised current index).0 ≡ s
    refused_store current index h =
        K.cas_refused s node_id_counter_key (next_bytes C K current) index h

    -- The entry is written, answered or not, and behind it the stage is `st`.
    saved-Good :
        (id : ℕ) (now : ℤ) (m' : NodeIdManager)
        → ((x c : ℕ) → Fits m'.stage (some id) x c)
        → held m'.stage (some id) ≡ some id
        → Good
            (Stage.saving id)
            m
            s
            (m', K.put s (registry_key m.node_addr) (entry_bytes C K m id now))
    unfolding entry_bytes
    saved-Good id now m' fits keeps =
        let p = K.get-put s (registry_key m.node_addr) (entry_bytes C K m id now) in
        let other =
          K.get-put_other s (registry_key m.node_addr) node_id_counter_key
            (entry_bytes C K m id now) apart in
        let entry : entry_in m.node_addr
              (K.put s (registry_key m.node_addr) (entry_bytes C K m id now))
            ≡ some id =
          rw
            (
              p.1,
              C.unmarshal-marshal
                  (record { node_id = id; node_addr = m.node_addr; timestamp = now }),
            )
            refl in
        rw (entry, other) (inl (refl, refl, inl keeps), fits _ _)

    -- Every request, however it fares, keeps what its stage owes.
    pub at_stage-Good :
        (st : Stage) (wire : Wire) (now : ℤ)
        → m.stage ≡ st
        → Fits st (entry_in m.node_addr s) (index_in s) (count_in s)
        → Good st m s (at_stage C K st wire now m s)
    unfolding at_stage
    at_stage-Good Stage.idle wire now q f = rw q (inl (refl, refl, inl refl), tt)
    at_stage-Good Stage.querying answered now q f =
        let k = queried-Fits m (get s (registry_key m.node_addr)) (index_in s) (count_in s) in
        (inl (refl, refl, inl k.0), k.1)
    at_stage-Good Stage.querying lost now q f = unfold fail in (inl (refl, refl, inl refl), tt)
    at_stage-Good Stage.querying done now q f = unfold fail in (inl (refl, refl, inl refl), tt)
    at_stage-Good (Stage.counting attempt) wire now q f =
        elim (Bool-cases (leb max_retries attempt)) [
          | inl spent ↦ unfold fail in rw spent (inl (refl, refl, inl refl), tt)
          | inr more ↦ rw more (by_wire wire)
        ]
      where
        by_wire :
            (w : Wire)
            → Good (Stage.counting attempt) m s (elim w [
              | answered ↦ (counted C K m attempt (get s node_id_counter_key), s)
              | _ ↦ (fail C K m counter_unread, s)
            ])
        by_wire answered =
            let k = counted-Fits m attempt (entry_in m.node_addr s) (get s node_id_counter_key) f in
            (inl (refl, refl, inl k.0), k.1)
        by_wire lost = unfold fail in (inl (refl, refl, inl refl), tt)
        by_wire done = unfold fail in (inl (refl, refl, inl refl), tt)
    at_stage-Good (Stage.swapping attempt current index) answered now q f =
        elim (Bool-cases (raised current index).1) [
          | inl won ↦
              unfold swapped in
              rw won (
                raised-Good attempt current index (record m { stage = Stage.saving current }) f
                  (inl refl) (λ _ _. f.0) won)
          | inr beaten ↦
              unfold swapped in
              rw (beaten, refused_store current index beaten) (inl (refl, refl, inl refl), f.0)
        ]
    at_stage-Good (Stage.swapping attempt current index) lost now q f =
        unfold fail in (inl (refl, refl, inl refl), tt)
    at_stage-Good (Stage.swapping attempt current index) done now q f =
        elim (Bool-cases (raised current index).1) [
          | inl won ↦
              unfold fail in
              raised-Good attempt current index (record m { stage = Stage.failed cas_broken }) f
                (inr refl) (λ _ _. tt) won
          | inr beaten ↦
              unfold fail in
              rw (refused_store current index beaten) (inl (refl, refl, inl refl), tt)
        ]
    at_stage-Good (Stage.saving id) answered now q f =
        saved-Good id now (record m { node_id = id; stage = Stage.returned id }) (λ _ _. refl) refl
    at_stage-Good (Stage.saving id) lost now q f = unfold fail in (inl (refl, refl, inr f), tt)
    at_stage-Good (Stage.saving id) done now q f =
        unfold fail in
        saved-Good id now (record m { stage = Stage.failed not_saved }) (λ _ _. tt) refl
    at_stage-Good (Stage.returned id) wire now q f = rw q (inl (refl, refl, inl refl), f)
    at_stage-Good (Stage.failed why) wire now q f = rw q (inl (refl, refl, inl refl), tt)
