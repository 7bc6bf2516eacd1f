-- ===== src/EventLog/Store.antt =====
-- The part of the interface `EventStore` of biz/model/event.go that its clients call, and the log in
-- memory as one of its implementations.
use cex_hertz_backend.Base.{ℕ, ℤ, String, Bool, true, false, Option, none, some, List}
use cex_hertz_backend.Events.Types.{MatchingEngineEvent}
use cex_hertz_backend.EventLog.Envelope.{Json, EventEnvelope}
use cex_hertz_backend.EventLog.Log.{LogError, InMemoryEventLog, append_event, get_events_by_symbol}

-- `append` answers whether the event was appended; `none` of `events_of` is an error.
pub record EventStore (J : Json) : Type 1 where
  pub Log : Type 0
  pub append : Option MatchingEngineEvent → Log → Log × Bool
  pub events_of : String → ℕ → ℤ → Log → Option (List (EventEnvelope J))

abbrev no_error : Option LogError → Bool
no_error none = true
no_error (some e) = false

abbrev pub in_memory : (J : Json) → EventStore J
in_memory J = record {
  Log = InMemoryEventLog J;
  append = λ e el. let r = append_event J el e in (r.0, no_error r.1);
  events_of = λ s start limit el. some (get_events_by_symbol J el s start limit);
}
