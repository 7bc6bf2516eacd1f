-- ===== src/Examples/EventLog.antt =====
-- The event log at concrete inputs. The payload of an envelope is the event itself.
use cex_hertz_backend.Base.{ℕ, pos, String, none, some, ◌≡◌, refl, arith, take, leb}
use cex_hertz_backend.Events.Types.{
  MatchingEngineEvent, submitted, executed, cancelled, event_type, event_seq, event_timestamp,
  symbol,
}
use cex_hertz_backend.EventLog.Envelope.{
  Json, EventEnvelope, RoundTrips, marshal_event, unmarshal_event, decoded,
  unmarshal_event-marshal_event,
}
use cex_hertz_backend.EventLog.Log.{
  InMemoryEventLog, new_in_memory_event_log, append_event, get_events_by_symbol,
}
use cex_hertz_backend.EventLog.Index.{Inv, new_in_memory_event_log-Inv, append_event-Inv}
use cex_hertz_backend.EventLog.Query.{matching, get_events_by_symbol_lem}

abbrev pub json : Json
json = record {
  Payload = MatchingEngineEvent;
  marshal = λ e. some e;
  unmarshal_submitted =
      λ e. elim e [ submitted s ↦ some s | executed t ↦ none | cancelled c ↦ none ];
  unmarshal_executed =
      λ e. elim e [ submitted s ↦ none | executed t ↦ some t | cancelled c ↦ none ];
  unmarshal_cancelled =
      λ e. elim e [ submitted s ↦ none | executed t ↦ none | cancelled c ↦ some c ];
}

abbrev pub cancel : ℕ → String → MatchingEngineEvent
cancel n name =
    cancelled (record {
      seq = n;
      timestamp = pos 1000;
      order_id = "o-1";
      symbol_str = name;
      reason = "user";
    })

abbrev wrapped : EventEnvelope json
wrapped = record {
  seq = 7;
  timestamp = pos 1000;
  type_name = "order_cancelled";
  symbol_name = "BTCUSDT";
  payload = cancel 7 "BTCUSDT";
}

json-RoundTrips : RoundTrips json
json-RoundTrips = record {
  of_submitted = λ e b h. grind arith;
  of_executed = λ e b h. grind arith;
  of_cancelled = λ e b h. grind arith;
}

wrapped_lem : marshal_event json (cancel 7 "BTCUSDT") ≡ some wrapped
unfolding marshal_event event_type event_seq event_timestamp symbol
wrapped_lem = refl

unmarshal_event-marshal_event_example :
    (unmarshal_event json wrapped ≡ decoded (cancel 7 "BTCUSDT"))
    × (wrapped.seq ≡ event_seq (cancel 7 "BTCUSDT"))
    × (wrapped.timestamp ≡ event_timestamp (cancel 7 "BTCUSDT"))
    × (wrapped.symbol_name ≡ symbol (cancel 7 "BTCUSDT"))
unmarshal_event-marshal_event_example =
    unmarshal_event-marshal_event json (cancel 7 "BTCUSDT") wrapped json-RoundTrips wrapped_lem

-- A log of two events.
abbrev first_log : InMemoryEventLog json
first_log = (append_event json (new_in_memory_event_log json) (some (cancel 7 "BTCUSDT"))).0

abbrev second_log : InMemoryEventLog json
second_log = (append_event json first_log (some (cancel 8 "ETHUSDT"))).0

first_log-Inv : Inv json first_log
first_log-Inv =
    append_event-Inv json (new_in_memory_event_log json) (some (cancel 7 "BTCUSDT"))
      (new_in_memory_event_log-Inv json)

append_event-Inv_example : Inv json second_log
append_event-Inv_example = append_event-Inv json first_log (some (cancel 8 "ETHUSDT")) first_log-Inv

get_events_by_symbol_lem_example :
    get_events_by_symbol json first_log "BTCUSDT" 5 (pos 1)
    ≡ take 1 (matching json (λ v. leb 5 v.seq) "BTCUSDT" first_log.events)
get_events_by_symbol_lem_example =
    get_events_by_symbol_lem json first_log "BTCUSDT" 5 1 (omega arith) first_log-Inv
