-- ===== src/NodeIds/Unique.antt =====
-- The numbers of a cluster's nodes are in range and differ, and a node keeps its own, whatever the
-- order of the requests.
use cex_hertz_backend.Base.{
  ℕ, ◌≤◌, String, str_eq, Option, none, some, ◌≡◌, ◌≢◌, ◌⊎◌, inl, inr, ap, sym, ◌∙◌, refl, arith,
  Bool-cases,
}
use native.Mathlib.Decide.{ℕ_discrete}
use text.Mathlib.TextLemmas.{append_cancel_left}
use cex_hertz_backend.NodeIds.Consul.{Codec, Consul}
use cex_hertz_backend.NodeIds.Manager.{
  NodeIdManager, Stage, at_stage, new_node_id_manager, get_or_allocate_node_id, advance, current_id,
  node_id_counter_key, registry_key,
}
use cex_hertz_backend.NodeIds.Cluster.{
  System, Step, call, restart, request, Reach, here, next, Apart, Fresh, update,
}
use cex_hertz_backend.NodeIds.Invariant.{
  held, Fits, View, Inv, Effect, Moves-Inv, update_same, update_other,
}
use cex_hertz_backend.NodeIds.Requests.{entry_in, index_in, count_in, Good, at_stage-Good, entry_id}
use cex_hertz_backend.NodeIds.Frame.{at_stage_entry, at_stage_addr, at_stage_other}

module _ {C : Codec} {K : Consul C.Bytes} {addr : ℕ → String} (apart : Apart C K addr) where
  keys : (i j : ℕ) → i ≢ j → registry_key (addr i) ≢ registry_key (addr j)
  keys i j n e = apart.addrs i j n (append_cancel_left "node_registry/" (addr i) (addr j) e)

  no_counter : (i : ℕ) → registry_key (addr i) ≢ node_id_counter_key
  no_counter i e = apart.counter i (append_cancel_left "node_registry/" (addr i) "next_id" e)

  view : System C K → View
  view t = record {
    stage = λ i. (t.nodes i).stage;
    entry = λ i. entry_in C K (addr i) t.store;
    index = index_in C K t.store;
    count = count_in C K t.store;
  }

  record Sound (t : System C K) : Type 0 where
    inv : Inv (view t)
    addrs : (i : ℕ) → (t.nodes i).node_addr ≡ addr i

  Fresh-Sound : {t : System C K} → Fresh C K addr t → Sound t
  unfolding view new_node_id_manager current_id
  Fresh-Sound {t} f = record {
    inv = record {
      low = rw f.counter (omega arith);
      high = rw f.counter (omega arith);
      drawn = λ i a h. absurd (empty i a h);
      unique = λ i j a h k. absurd (empty i a h);
      fits = λ i. rw (f.nodes i) tt;
    };
    addrs = λ i. rw (f.nodes i) refl;
  }
    where
      empty : (i a : ℕ) → held (t.nodes i).stage (entry_in C K (addr i) t.store) ≡ some a → ⊥
      empty i a h = cc (rw (f.nodes i, f.entries i) at h)

  -- The node `i` goes on to `m` and leaves the store `s`.
  moved-Sound :
      {t : System C K} (i : ℕ) (m : NodeIdManager) (s : K.Store)
      → Effect
          (held (t.nodes i).stage (entry_in C K (addr i) t.store))
          (index_in C K t.store)
          (count_in C K t.store)
          (held m.stage (entry_in C K (addr i) s))
          (index_in C K s)
          (count_in C K s)
      → Fits m.stage (entry_in C K (addr i) s) (index_in C K s) (count_in C K s)
      → ((j : ℕ) → i ≢ j → entry_in C K (addr j) s ≡ entry_in C K (addr j) t.store)
      → m.node_addr ≡ addr i
      → Sound t
      → Sound (record { store = s; nodes = update t.nodes i m })
  unfolding view
  moved-Sound {t} i m s effect fit others kept sound = record {
    inv = Moves-Inv sound.inv (record {
      effect = rw (update_same t.nodes i m) effect;
      fit = rw (update_same t.nodes i m) fit;
      stages = λ j n. ap (λ n. n.stage) (update_other t.nodes i m j n);
      entries = others;
    });
    addrs = λ j. elim (ℕ_discrete i j) [
      | yes e ↦ rw (← e) (rw (update_same t.nodes i m) kept)
      | no n ↦ rw (update_other t.nodes i m j n) (sound.addrs j)
    ];
  }

  -- A stage that owes nothing, with the number of the entry.
  lose : (st : Stage) (e : Option ℕ) (x c : ℕ) → Fits st e x c → (e ≡ held st e) ⊎ (e ≡ none)
  lose Stage.idle e x c f = inl refl
  lose Stage.querying e x c f = inl refl
  lose (Stage.counting attempt) e x c f = inl refl
  lose (Stage.swapping attempt current index) e x c f = inl refl
  lose (Stage.saving id) e x c f = inr f
  lose (Stage.returned id) e x c f = inl refl
  lose (Stage.failed why) e x c f = inl refl

  called :
      (m : NodeIdManager) (e : Option ℕ) (x c : ℕ)
      → (held (get_or_allocate_node_id m).stage e ≡ e)
        × Fits (get_or_allocate_node_id m).stage e x c
        × ((get_or_allocate_node_id m).node_addr ≡ m.node_addr)
  unfolding get_or_allocate_node_id
  called m e x c = elim (Bool-cases (str_eq m.node_addr "")) [
    | inl h ↦ rw h (refl, tt, refl)
    | inr h ↦ rw h (refl, tt, refl)
  ]

  own-Fits :
      {t : System C K} (i : ℕ)
      → Sound t
      → Fits
          (t.nodes i).stage
          (entry_in C K (t.nodes i).node_addr t.store)
          (index_in C K t.store)
          (count_in C K t.store)
  unfolding view
  own-Fits i sound = rw (sound.addrs i) (sound.inv.fits i)

  own_apart :
      {t : System C K} (i : ℕ) → Sound t → registry_key (t.nodes i).node_addr ≢ node_id_counter_key
  own_apart i sound = rw (sound.addrs i) (no_counter i)

  returned_has :
      {t : System C K}
      → Sound t
      → (i a : ℕ) → (t.nodes i).stage ≡ Stage.returned a
      → held (t.nodes i).stage (entry_in C K (addr i) t.store) ≡ some a
  unfolding view
  returned_has s i a p = rw p (rw p at (s.inv.fits i))

  Step-Sound : {t u : System C K} → Step C K t u → Sound t → Sound u
  unfolding view get_or_allocate_node_id new_node_id_manager advance
  Step-Sound {t} (call i) sound =
      let k =
        called (t.nodes i) (entry_in C K (addr i) t.store) (index_in C K t.store)
          (count_in C K t.store) in
      moved-Sound i _ t.store (inl (refl, refl, rw k.0 (lose _ _ _ _ (sound.inv.fits i)))) k.1
        (λ j n. refl) (k.2 ∙ sound.addrs i) sound
  Step-Sound {t} (restart i) sound =
      moved-Sound i _ t.store (inl (refl, refl, lose _ _ _ _ (sound.inv.fits i))) tt (λ j n. refl)
        (sound.addrs i) sound
  Step-Sound {t} (request i wire now) sound =
      let m = t.nodes i in
      let r = at_stage C K m.stage wire now m t.store in
      let good : Good C K m.stage m t.store r =
        at_stage-Good C K m t.store (own_apart i sound) m.stage wire now refl (own-Fits i sound) in
      moved-Sound i r.0 r.1 (rw (← sound.addrs i) good.0) (rw (← sound.addrs i) good.1)
        (λ j n. ap (entry_id C K) (
          at_stage_other C K m.stage wire now m t.store (registry_key (addr j))
            (rw (sound.addrs i) (keys i j n)) (λ q. no_counter j (sym q))))
        (at_stage_addr C K m.stage wire now m t.store ∙ sound.addrs i) sound

  Reach-Sound : {t u : System C K} → Sound t → Reach C K t u → Sound u
  Reach-Sound s here = s
  Reach-Sound s (next r st) = Step-Sound st (Reach-Sound s r)

  -- From a new cluster on, whatever the order of the nodes' requests, calls and restarts, the numbers
  -- that two nodes' calls of GetOrAllocateNodeID return are from 1 to 1023, and are different.
  pub returned_ids_differ :
      {t u : System C K}
      → Fresh C K addr t
      → Reach C K t u
      → (i j a b : ℕ) → (u.nodes i).stage ≡ Stage.returned a
      → (u.nodes j).stage ≡ Stage.returned b
      → (1 ≤ a) × (a ≤ 1023) × (i ≢ j → a ≢ b)
  unfolding view
  returned_ids_differ {t} {u} f r i j a b p q =
      let s = Reach-Sound (Fresh-Sound f) r in
      let has = returned_has s i a p in
      let d = s.inv.drawn i a has in
      (
        d.0,
        omega (arith, d.1, s.inv.high),
        λ n e. n (s.inv.unique i j a has (returned_has s j b q ∙ ap some (sym e))),
      )

  entry_stays :
      {t u : System C K} (i a : ℕ)
      → Sound t
      → Step C K t u
      → entry_in C K (addr i) t.store ≡ some a
      → entry_in C K (addr i) u.store ≡ some a
  unfolding advance
  entry_stays i a sound (call k) e = e
  entry_stays i a sound (restart k) e = e
  entry_stays {t} i a sound (request k wire now) e = elim (ℕ_discrete k i) [
    | yes own ↦
        let m = t.nodes k in
        let at : m.node_addr ≡ addr i = sound.addrs k ∙ ap addr own in
        rw (← at) (at_stage_entry C K m t.store m.stage wire now a (own-Fits k sound) (rw at e))
    | no other ↦
        let m = t.nodes k in
        ap (entry_id C K) (
          at_stage_other C K m.stage wire now m t.store (registry_key (addr i))
            (rw (sound.addrs k) (keys k i other)) (λ q. no_counter i (sym q)))
        ∙ e
  ]

  entry_kept :
      {t u : System C K} (i a : ℕ)
      → Sound t
      → Reach C K t u
      → entry_in C K (addr i) t.store ≡ some a
      → entry_in C K (addr i) u.store ≡ some a
  entry_kept i a sound here e = e
  entry_kept i a sound (next r st) e =
      entry_stays i a (Reach-Sound sound r) st (entry_kept i a sound r e)

  -- Once a node's call has returned a number, every later call of the node that returns, behind any
  -- restarts and requests of all nodes, returns the same number.
  pub returned_id_kept :
      {t u v : System C K}
      → Fresh C K addr t
      → Reach C K t u
      → Reach C K u v
      → (i a b : ℕ) → (u.nodes i).stage ≡ Stage.returned a
      → (v.nodes i).stage ≡ Stage.returned b
      → a ≡ b
  unfolding view
  returned_id_kept {t} {u} {v} f r l i a b p q =
      let s = Reach-Sound (Fresh-Sound f) r in
      let s' = Reach-Sound s l in
      let first : entry_in C K (addr i) u.store ≡ some a = rw p at (s.inv.fits i) in
      let second : entry_in C K (addr i) v.store ≡ some b = rw q at (s'.inv.fits i) in
      let kept = entry_kept i a s l first in cc
