-- ===== src/Pipeline/Context.antt =====
-- `EventContext` of biz/model/event_context.go. An event that is nil is `none`.
use Prim.Native.String.{◌++◌}
use cex_hertz_backend.Base.{
  suc, ℤ, pos, negsuc, String, str_eq, Bool, true, false, not, ◌&&◌, Option, none, some, decimal,
  leb_ℤ,
}
use cex_hertz_backend.Events.Types.{MatchingEngineEvent, event_seq, event_timestamp, symbol}

-- Times are numbers of milliseconds.
pub record EventContext : Type 0 where
  pub event : Option MatchingEngineEvent
  pub topic : String
  pub partition : ℤ
  pub offset : ℤ
  pub timestamp : ℤ
  pub processed_at : ℤ
  pub ownership_epoch : ℤ
  pub processing_node : String
  pub state_checksum : String
  pub order_count : ℤ
  pub trade_count : ℤ

abbrev timestamp_or : ℤ → Option MatchingEngineEvent → ℤ
timestamp_or now none = now
timestamp_or now (some e) = event_timestamp e

unfoldable pub new_event_context : ℤ → Option MatchingEngineEvent → String → ℤ → ℤ → EventContext
new_event_context now e topic partition offset = record {
  event = e;
  topic = topic;
  partition = partition;
  offset = offset;
  timestamp = timestamp_or now e;
  processed_at = now;
  ownership_epoch = pos 0;
  processing_node = "";
  state_checksum = "";
  order_count = pos 0;
  trade_count = pos 0;
}

unfoldable pub with_ownership_epoch : EventContext → ℤ → String → EventContext
with_ownership_epoch c epoch node = record c { ownership_epoch = epoch; processing_node = node }

-- %d
abbrev pub print_int : ℤ → String
print_int (pos n) = decimal n
print_int (negsuc n) = "-" ++ decimal (suc n)

-- `none` is a nil context.
unfoldable pub key : Option EventContext → String
key none = ""
key (some c) = elim (c.event) [
  | none ↦ c.topic ++ (":" ++ (print_int c.partition ++ (":" ++ print_int c.offset)))
  | some e ↦ c.topic ++ (":" ++ (symbol e ++ (":" ++ decimal (event_seq e))))
]

abbrev has_event : Option MatchingEngineEvent → Bool
has_event none = false
has_event (some e) = true

unfoldable pub is_valid : EventContext → Bool
is_valid c =
    has_event c.event
    && not (str_eq c.topic "")
    && leb_ℤ (pos 0) c.partition
    && leb_ℤ (pos 0) c.offset
