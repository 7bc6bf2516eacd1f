-- ===== src/EventLog/Log.antt =====
-- `InMemoryEventLog` of biz/service/event_log_memory.go. Its methods run under its lock.
use cex_hertz_backend.Base.{
  ℕ, ℤ, pos, String, Bool, Option, none, some, List, [], ◌∷◌, ◌++◌, length, get_elem?, leb, ltb_ℤ,
  leb_ℤ, ◌&&◌, lookup, lookup_or, insert, Dict, if◌then◌else◌, negsuc,
}
use cex_hertz_backend.Events.Types.{MatchingEngineEvent, event_seq, symbol}
use cex_hertz_backend.EventLog.Envelope.{Json, EventEnvelope, marshal_event}

pub data LogError : Type 0 where
  event_nil marshal_failed : LogError

module _ (J : Json) where
  pub record InMemoryEventLog : Type 0 where
    pub events : List (EventEnvelope J)
    pub symbol_indexes : Dict (List ℕ)
    pub symbol_seq : Dict ℕ

  unfoldable pub new_in_memory_event_log : InMemoryEventLog
  new_in_memory_event_log = record { events = []; symbol_indexes = []; symbol_seq = [] }

  -- The log behind the event `e`, in its envelope `v`.
  abbrev pub appended : InMemoryEventLog → MatchingEngineEvent → EventEnvelope J → InMemoryEventLog
  appended el e v = record {
    events = el.events ++ v ∷ [];
    symbol_indexes =
        insert (symbol e) (lookup_or [] (symbol e) el.symbol_indexes ++ length el.events ∷ [])
          el.symbol_indexes;
    symbol_seq = insert (symbol e) (event_seq e) el.symbol_seq;
  }

  -- The event `none` is nil.
  unfoldable pub append_event :
      InMemoryEventLog → Option MatchingEngineEvent → InMemoryEventLog × Option LogError
  append_event el none = (el, some event_nil)
  append_event el (some e) = elim (marshal_event J e) [
    | none ↦ (el, some marshal_failed)
    | some v ↦ (appended el e v, none)
  ]

  -- The loop over the indexes of a symbol: `wanted` is its test, `full` that of its limit.
  unfoldable pub scan :
      (EventEnvelope J → Bool)
      → (ℕ → Bool)
      → List (EventEnvelope J)
      → List ℕ
      → List (EventEnvelope J)
      → List (EventEnvelope J)
  scan wanted full events [] result = result
  scan wanted full events (i ∷ is) result = elim (get_elem? events i) [
    | none ↦ result
    | some v ↦
        let result' = result ++ v ∷ [] in
        let stop = full (length result') in
        let rest = scan wanted full events is (if wanted v then result' else result) in
        if wanted v && stop then result' else rest
  ]

  -- limit > 0 && len(result) >= limit
  abbrev pub reached : ℤ → ℕ → Bool
  reached limit n = ltb_ℤ (pos 0) limit && leb_ℤ limit (pos n)

  abbrev pub never : ℕ → Bool
  never n = Bool.false

  -- A symbol with no index reads as no events.
  unfoldable pub get_events_by_symbol : InMemoryEventLog → String → ℕ → ℤ → List (EventEnvelope J)
  get_events_by_symbol el s start limit = elim (lookup s el.symbol_indexes) [
    | none ↦ []
    | some indexes ↦ scan (λ v. leb start v.seq) (reached limit) el.events indexes []
  ]

  unfoldable pub get_events_since_time : InMemoryEventLog → String → ℤ → List (EventEnvelope J)
  get_events_since_time el s timestamp = elim (lookup s el.symbol_indexes) [
    | none ↦ []
    | some indexes ↦ scan (λ v. leb_ℤ timestamp v.timestamp) never el.events indexes []
  ]

  unfoldable pub get_latest_seq : InMemoryEventLog → String → ℕ
  get_latest_seq el s = lookup_or 0 s el.symbol_seq

  unfoldable pub get_all_events : InMemoryEventLog → List (EventEnvelope J)
  get_all_events el = el.events

  unfoldable pub get_events_by_symbol_and_seq :
      InMemoryEventLog → String → ℕ → List (EventEnvelope J)
  get_events_by_symbol_and_seq el s start = get_events_by_symbol el s start (negsuc 0)
