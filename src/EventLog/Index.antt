-- ===== src/EventLog/Index.antt =====
-- The indexes of the event log of biz/service/event_log_memory.go point at the events of each symbol.
use mathlib.Core.List.{append-nil}
use cex_hertz_backend.Base.{
  ℕ, suc, ◌+◌, String, str_eq, str_eq_iff, Option, none, some, List, [], ◌∷◌, ◌++◌, ◌≡◌, refl, ◌∙◌,
  sym, ap, arith, length, lookup, lookup_or, lookup_or-insert, if◌then◌else◌, Bool-cases,
  Option-cases, inl, inr,
}
use cex_hertz_backend.Events.Types.{MatchingEngineEvent, event_seq, symbol}
use cex_hertz_backend.EventLog.Envelope.{Json, EventEnvelope, marshal_event}
use cex_hertz_backend.EventLog.Log.{
  InMemoryEventLog, new_in_memory_event_log, append_event, appended, get_latest_seq,
}

module _ (J : Json) where
  -- The positions, counted from `i`, of the events of the symbol `s`.
  abbrev pub positions : ℕ → String → List (EventEnvelope J) → List ℕ
  positions i s [] = []
  positions i s (v ∷ vs) =
      if str_eq v.symbol_name s then i ∷ positions (suc i) s vs else positions (suc i) s vs

  -- The number of the last event of the symbol, `last` where there is none.
  abbrev pub last_seq : ℕ → String → List (EventEnvelope J) → ℕ
  last_seq last s [] = last
  last_seq last s (v ∷ vs) = last_seq (if str_eq v.symbol_name s then v.seq else last) s vs

  pub record Inv (el : InMemoryEventLog J) : Type 0 where
    pub indexed : (s : String) → lookup_or [] s el.symbol_indexes ≡ positions 0 s el.events
    pub latest : (s : String) → get_latest_seq J el s ≡ last_seq 0 s el.events

  positions-append :
      (i : ℕ) (s : String) (vs : List (EventEnvelope J)) (v : EventEnvelope J)
      → positions i s (vs ++ v ∷ [])
        ≡ positions i s vs ++ (if str_eq v.symbol_name s then (i + length vs) ∷ [] else [])
  positions-append i s [] v = elim (Bool-cases (str_eq v.symbol_name s)) [
    | inl e ↦ rw (e) (ap (λ n. n ∷ []) (omega arith))
    | inr e ↦ rw (e) refl
  ]
  positions-append i s (w ∷ vs) v =
      let h = positions-append (suc i) s vs v in
      let shift : (i + suc (length vs)) ≡ suc i + length vs = omega arith in
      elim (Bool-cases (str_eq w.symbol_name s)) [
        | inl e ↦ rw (e, shift) (ap (λ is. i ∷ is) h)
        | inr e ↦ rw (e, shift) h
      ]

  last_seq-append :
      (last : ℕ) (s : String) (vs : List (EventEnvelope J)) (v : EventEnvelope J)
      → last_seq last s (vs ++ v ∷ [])
        ≡ (if str_eq v.symbol_name s then v.seq else last_seq last s vs)
  last_seq-append last s [] v = refl
  last_seq-append last s (w ∷ vs) v =
      last_seq-append (if str_eq w.symbol_name s then w.seq else last) s vs v

  -- The log of NewInMemoryEventLog is well formed.
  pub new_in_memory_event_log-Inv : Inv (new_in_memory_event_log J)
  unfolding new_in_memory_event_log get_latest_seq lookup_or lookup
  new_in_memory_event_log-Inv = record { indexed = λ s. refl; latest = λ s. refl }

  appended-Inv :
      (el : InMemoryEventLog J) (e : MatchingEngineEvent) (v : EventEnvelope J)
      → v.symbol_name ≡ symbol e
      → v.seq ≡ event_seq e
      → Inv el
      → Inv (appended J el e v)
  unfolding get_latest_seq lookup_or
  appended-Inv el e v named numbered inv = record {
    indexed = λ s.
        lookup_or-insert [] (symbol e) s
          (lookup_or [] (symbol e) el.symbol_indexes ++ length el.events ∷ []) el.symbol_indexes
        ∙ elim (Bool-cases (str_eq (symbol e) s)) [
          | inl y ↦
              let same : symbol e ≡ s = (str_eq_iff (symbol e) s).0 y in
              let h = inv.indexed (symbol e) in
              rw (positions-append 0 s el.events v, named, y)
                (ap (λ is. is ++ length el.events ∷ []) (h ∙ ap (λ t. positions 0 t el.events) same)
                  ∙ ap (λ n. positions 0 s el.events ++ n ∷ []) (omega arith))
          | inr n ↦
              rw (positions-append 0 s el.events v, named, n)
                (inv.indexed s ∙ sym (append-nil (positions 0 s el.events)))
        ];
    latest = λ s.
        lookup_or-insert 0 (symbol e) s (event_seq e) el.symbol_seq
        ∙ elim (Bool-cases (str_eq (symbol e) s)) [
          | inl y ↦ rw (last_seq-append 0 s el.events v, named, y) (sym numbered)
          | inr n ↦ rw (last_seq-append 0 s el.events v, named, n) (inv.latest s)
        ];
  }

  -- AppendEvent keeps a log well formed, also when it refuses the event: each symbol's index lists
  -- the positions of its events in order, and its latest number is that of its last event.
  pub append_event-Inv :
      (el : InMemoryEventLog J) (e : Option MatchingEngineEvent)
      → Inv el
      → Inv ((append_event J el e).0)
  unfolding append_event marshal_event
  append_event-Inv el none inv = inv
  append_event-Inv el (some e) inv = elim (Option-cases (J.marshal e)) [
    | inl n ↦ rw (append_event, marshal_event, n) inv
    | inr (b, m) ↦ rw (append_event, marshal_event, m) (appended-Inv el e _ refl refl inv)
  ]
