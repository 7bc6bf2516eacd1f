-- ===== src/EventLog/Query.antt =====
-- The queries of biz/service/event_log_memory.go against the list of the events.
use mathlib.Core.List.{append-nil}
use cex_hertz_backend.Base.{
  ℕ, zero, suc, ◌-◌, ◌<◌, String, str_eq, Bool, true, false, none, some, List, [], ◌∷◌, ◌++◌, ◌≡◌,
  refl, ◌∙◌, sym, ap, arith, length, lookup, lookup_or, if◌then◌else◌, get_elem?, take, keep, leb,
  ◌&&◌, Bool-cases, Option-cases, inl, inr, ℤ, pos, leb_ℤ,
}
use cex_hertz_backend.EventLog.Envelope.{Json, EventEnvelope}
use cex_hertz_backend.EventLog.Log.{
  InMemoryEventLog, scan, reached, never, get_events_by_symbol, get_events_since_time,
}
use cex_hertz_backend.EventLog.Index.{Inv, positions}

module _ (J : Json) where
  -- The event at the end of a list's first part.
  get_elem?-middle :
      (pre post : List (EventEnvelope J)) (v : EventEnvelope J)
      → get_elem? (pre ++ v ∷ post) (length pre) ≡ some v
  get_elem?-middle [] post v = refl
  get_elem?-middle (w ∷ pre) post v = get_elem?-middle pre post v

  regroup :
      (pre post : List (EventEnvelope J)) (v : EventEnvelope J)
      → pre ++ v ∷ post ≡ (pre ++ v ∷ []) ++ post
  regroup [] post v = refl
  regroup (w ∷ pre) post v = ap (λ t. w ∷ t) (regroup pre post v)

  length-snoc :
      (pre : List (EventEnvelope J)) (v : EventEnvelope J)
      → length (pre ++ v ∷ []) ≡ suc (length pre)
  length-snoc [] v = refl
  length-snoc (w ∷ pre) v = ap suc (length-snoc pre v)

  -- The events of a symbol that pass a test.
  abbrev pub matching :
      (EventEnvelope J → Bool) → String → List (EventEnvelope J) → List (EventEnvelope J)
  matching wanted s vs = keep (λ v. str_eq v.symbol_name s && wanted v) vs

  snoc_append :
      (r xs : List (EventEnvelope J)) (v : EventEnvelope J) → (r ++ v ∷ []) ++ xs ≡ r ++ v ∷ xs
  snoc_append r xs v = sym (regroup r xs v)

  -- One round of the loop, at the position of the event `v`.
  scan_next :
      (wanted : EventEnvelope J → Bool) (full : ℕ → Bool) (events r : List (EventEnvelope J))
      (i : ℕ) (is : List ℕ) (v : EventEnvelope J)
      → get_elem? events i ≡ some v
      → scan J wanted full events (i ∷ is) r ≡ (
          if wanted v && full (length (r ++ v ∷ []))
          then r ++ v ∷ []
          else scan J wanted full events is (if wanted v then r ++ v ∷ [] else r))
  unfolding scan
  scan_next wanted full events r i is v h = rw (scan, h) refl

  take_nil : (n : ℕ) → take {A = EventEnvelope J} n [] ≡ []
  take_nil zero = refl
  take_nil (suc n) = refl

  take-room :
      (n k : ℕ) (v : EventEnvelope J) (vs : List (EventEnvelope J))
      → n < k
      → take (k - n) (v ∷ vs) ≡ v ∷ take (k - suc n) vs
  take-room n k v vs h = let room : k - n ≡ suc (k - suc n) = omega arith in rw (room) refl

  -- A scan without a limit collects every event of the symbol that passes.
  scan_all :
      (wanted : EventEnvelope J → Bool) (full : ℕ → Bool) (s : String)
      (pre post r : List (EventEnvelope J))
      → ((n : ℕ) → full n ≡ false)
      → scan J wanted full (pre ++ post) (positions J (length pre) s post) r
        ≡ r ++ matching wanted s post
  unfolding scan
  scan_all wanted full s pre [] r h = sym (append-nil r)
  scan_all wanted full s pre (v ∷ post) r h =
      let next =
        λ (r' : List (EventEnvelope J)). scan_all wanted full s (pre ++ v ∷ []) post r' h in
      elim (Bool-cases (str_eq v.symbol_name s)) [
        | inl y ↦ rw (y) (
            scan_next wanted full (pre ++ v ∷ post) r (length pre)
              (positions J (suc (length pre)) s post) v (get_elem?-middle pre post v)
            ∙ elim (Bool-cases (wanted v)) [
              | inl w ↦
                  rw (w, h (length (r ++ v ∷ [])), regroup pre post v, sym (length-snoc pre v))
                    (next (r ++ v ∷ []) ∙ snoc_append r _ v)
              | inr w ↦ rw (w, regroup pre post v, sym (length-snoc pre v)) (next r)
            ])
        | inr n ↦ rw (n, regroup pre post v, sym (length-snoc pre v)) (next r)
      ]

  -- A scan that stops at `k` events collects the first ones.
  scan_first :
      (wanted : EventEnvelope J → Bool) (full : ℕ → Bool) (k : ℕ) (s : String)
      (pre post r : List (EventEnvelope J))
      → ((n : ℕ) → full n ≡ leb k n)
      → length r < k
      → scan J wanted full (pre ++ post) (positions J (length pre) s post) r
        ≡ r ++ take (k - length r) (matching wanted s post)
  unfolding scan
  scan_first wanted full k s pre [] r h room =
      sym (ap (λ t. r ++ t) (take_nil (k - length r)) ∙ append-nil r)
  scan_first wanted full k s pre (v ∷ post) r h room =
      let next =
        λ (r' : List (EventEnvelope J)). scan_first wanted full k s (pre ++ v ∷ []) post r' h in
      let rest = matching wanted s post in
      let last_one = λ (f : leb k (length (r ++ v ∷ [])) ≡ true).
        let spent : 0 ≡ k - suc (length r) = ground (arith, length-snoc r v) in
        ap (λ n. r ++ v ∷ take n rest) spent in
      let more = λ (g : leb k (length (r ++ v ∷ [])) ≡ false).
        next (r ++ v ∷ []) (ground (arith, length-snoc r v))
        ∙ snoc_append r _ v
        ∙ ap (λ n. r ++ v ∷ take (k - n) rest) (length-snoc r v) in
      elim (Bool-cases (str_eq v.symbol_name s)) [
        | inl y ↦ rw (y) (
            scan_next wanted full (pre ++ v ∷ post) r (length pre)
              (positions J (suc (length pre)) s post) v (get_elem?-middle pre post v)
            ∙ elim (Bool-cases (wanted v)) [
              | inl w ↦
                  rw (w, h (length (r ++ v ∷ [])), take-room (length r) k v rest room)
                    (elim (Bool-cases (leb k (length (r ++ v ∷ [])))) [
                      | inl f ↦ rw (f) (last_one f)
                      | inr g ↦ rw (g, regroup pre post v, sym (length-snoc pre v)) (more g)
                    ])
              | inr w ↦ rw (w, regroup pre post v, sym (length-snoc pre v)) (next r room)
            ])
        | inr n ↦ rw (n, regroup pre post v, sym (length-snoc pre v)) (next r room)
      ]

  -- A symbol with no index reads like one with an empty index.
  indexed_scan :
      (wanted : EventEnvelope J → Bool) (full : ℕ → Bool) (el : InMemoryEventLog J) (s : String)
      → Inv J el
      → (elim (lookup s el.symbol_indexes) [
        | none ↦ []
        | some indexes ↦ scan J wanted full el.events indexes []
      ])
        ≡ scan J wanted full el.events (positions J 0 s el.events) []
  unfolding lookup_or scan
  indexed_scan wanted full el s inv = elim (Option-cases (lookup s el.symbol_indexes)) [
    | inl n ↦
        let here : positions J 0 s el.events ≡ [] = sym (inv.indexed s) ∙ rw (lookup_or, n) refl in
        rw (n, here) refl
    | inr (is, f) ↦
        let here : positions J 0 s el.events ≡ is = sym (inv.indexed s) ∙ rw (lookup_or, f) refl in
        rw (f, here) refl
  ]

  -- GetEventsSinceTime returns, in order, the events of the symbol whose time is not before the
  -- timestamp, when the log is well formed.
  get_events_since_time_lem :
      (el : InMemoryEventLog J) (s : String) (t : ℤ)
      → Inv J el
      → get_events_since_time J el s t ≡ matching (λ v. leb_ℤ t v.timestamp) s el.events
  unfolding get_events_since_time
  get_events_since_time_lem el s t inv =
      indexed_scan (λ v. leb_ℤ t v.timestamp) (never J) el s inv
      ∙ scan_all (λ v. leb_ℤ t v.timestamp) (never J) s [] el.events [] (λ n. refl)

  -- GetEventsBySymbol with a limit returns the first events, no more than the limit, of those of
  -- the symbol whose number is not below the start, when the log is well formed.
  pub get_events_by_symbol_lem :
      (el : InMemoryEventLog J) (s : String) (start limit : ℕ)
      → 0 < limit
      → Inv J el
      → get_events_by_symbol J el s start (pos limit)
        ≡ take limit (matching (λ v. leb start v.seq) s el.events)
  unfolding get_events_by_symbol
  get_events_by_symbol_lem el s start limit h inv =
      indexed_scan (λ v. leb start v.seq) (reached J (pos limit)) el s inv
      ∙ scan_first (λ v. leb start v.seq) (reached J (pos limit)) limit s [] el.events []
          (λ n. ground arith) h
      ∙ ap (λ n. take n (matching (λ v. leb start v.seq) s el.events)) (omega arith)
