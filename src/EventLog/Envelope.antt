-- ===== src/EventLog/Envelope.antt =====
-- `EventEnvelope`, `MarshalEvent` and `UnmarshalEvent` of biz/model/event.go.
use cex_hertz_backend.Base.{
  ℕ, ℤ, String, str_eq, str_eq_iff, Option, none, some, Option-cases, inl, inr, ◌≡◌, ◌≢◌, refl,
  arith, if◌then◌else◌,
}
use cex_hertz_backend.Events.Types.{
  OrderSubmittedEvent, TradeExecutedEvent, OrderCancelledEvent, MatchingEngineEvent, submitted,
  executed, cancelled, event_type, event_seq, event_timestamp, symbol,
}

-- The JSON of an event, of a type that the reader chooses. `none` is an error of the codec.
pub record Json : Type 1 where
  pub Payload : Type 0
  pub marshal : MatchingEngineEvent → Option Payload
  pub unmarshal_submitted : Payload → Option OrderSubmittedEvent
  pub unmarshal_executed : Payload → Option TradeExecutedEvent
  pub unmarshal_cancelled : Payload → Option OrderCancelledEvent

pub data Decoded : Type 0 where
  decoded : MatchingEngineEvent → Decoded
  nil : Decoded
  bad_payload : Decoded

module _ (J : Json) where
  pub record EventEnvelope : Type 0 where
    pub seq : ℕ
    pub timestamp : ℤ
    pub type_name : String
    pub symbol_name : String
    pub payload : J.Payload

  abbrev envelope : MatchingEngineEvent → J.Payload → EventEnvelope
  envelope e bytes = record {
    seq = event_seq e;
    timestamp = event_timestamp e;
    type_name = event_type e;
    symbol_name = symbol e;
    payload = bytes;
  }

  unfoldable pub marshal_event : MatchingEngineEvent → Option EventEnvelope
  marshal_event e = elim (J.marshal e) [ none ↦ none | some bytes ↦ some (envelope e bytes) ]

  abbrev read : {A : Type 0} → (A → MatchingEngineEvent) → Option A → Decoded
  read f none = bad_payload
  read f (some a) = decoded (f a)

  -- An unknown type gives a nil event and no error.
  unfoldable pub unmarshal_event : EventEnvelope → Decoded
  unmarshal_event v =
      if str_eq v.type_name "order_submitted"
      then read submitted (J.unmarshal_submitted v.payload)
      else if str_eq v.type_name "trade_executed"
      then read executed (J.unmarshal_executed v.payload)
      else if str_eq v.type_name "order_cancelled"
      then read cancelled (J.unmarshal_cancelled v.payload)
      else nil

  -- What JSON promises: an event that was encoded is decoded as it was.
  pub record RoundTrips : Type 0 where
    pub of_submitted :
        (e : OrderSubmittedEvent) (b : J.Payload)
        → J.marshal (submitted e) ≡ some b
        → J.unmarshal_submitted b ≡ some e
    pub of_executed :
        (e : TradeExecutedEvent) (b : J.Payload)
        → J.marshal (executed e) ≡ some b
        → J.unmarshal_executed b ≡ some e
    pub of_cancelled :
        (e : OrderCancelledEvent) (b : J.Payload)
        → J.marshal (cancelled e) ≡ some b
        → J.unmarshal_cancelled b ≡ some e

  decoded-envelope :
      (e : MatchingEngineEvent) (b : J.Payload)
      → RoundTrips
      → J.marshal e ≡ some b
      → unmarshal_event (envelope e b) ≡ decoded e
  unfolding unmarshal_event event_type
  decoded-envelope (submitted e) b r h = rw (r.of_submitted e b h)
  decoded-envelope (executed e) b r h = rw (r.of_executed e b h)
  decoded-envelope (cancelled e) b r h = rw (r.of_cancelled e b h)

  -- An event that is put into an envelope comes out of it as it was, and the envelope shows its
  -- number, its time and its symbol.
  pub unmarshal_event-marshal_event :
      (e : MatchingEngineEvent) (v : EventEnvelope)
      → RoundTrips
      → marshal_event e ≡ some v
      → (unmarshal_event v ≡ decoded e)
        × (v.seq ≡ event_seq e)
        × (v.timestamp ≡ event_timestamp e)
        × (v.symbol_name ≡ symbol e)
  unfolding marshal_event
  unmarshal_event-marshal_event e v r h = elim (Option-cases (J.marshal e)) [
    | inl n ↦ absurd (ground arith)
    | inr (b, m) ↦
        let same : v ≡ envelope e b = ground arith in
        rw same (decoded-envelope e b r m, refl, refl, refl)
  ]

  -- An envelope of a type that the code does not know gives a nil event, and no error.
  unmarshal_event_unknown :
      (v : EventEnvelope)
      → v.type_name ≢ "order_submitted"
      → v.type_name ≢ "trade_executed"
      → v.type_name ≢ "order_cancelled"
      → unmarshal_event v ≡ nil
  unfolding unmarshal_event
  unmarshal_event_unknown v a b c = ground (
    arith,
    str_eq_iff v.type_name "order_submitted",
    str_eq_iff v.type_name "trade_executed",
    str_eq_iff v.type_name "order_cancelled",
  )
