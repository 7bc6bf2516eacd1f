-- ===== src/Examples/Position.antt =====
-- The position processor at a concrete input: a store that lists the ids of its outbox and counts the
-- changes of positions.
use cex_hertz_backend.Base.{
  ℕ, suc, ℤ, pos, String, str_eq_refl, true, false, none, some, List, [], ◌∷◌, ◌≡◌, ◌≢◌, ◌⊎◌, refl,
  if◌then◌else◌, Bool-cases, inl, inr,
}
use cex_hertz_backend.Events.Types.{TradeExecutedEvent}
use cex_hertz_backend.Position.Handler.{
  PositionDb, unanswered, Texts, KeepsIds, OutboxEntry, remembers,
  handle_trade_executed_transactional,
}
use cex_hertz_backend.Position.Atomic.{Booked, Duplicate, handle_trade_executed_transactional_lem}

abbrev ledger : PositionDb
ledger = record {
  Store = List String × ℕ;
  buy = λ u n q p s. ((s.0, suc s.1), none);
  sell = λ u n q s. ((s.0, suc s.1), none);
  write_outbox = λ o s.
      if remembers o.event_id s.0 then (s, some false) else ((o.event_id ∷ s.0, s.1), some true);
  write_processed = λ id s. (s, some true);
  delete_processed = λ id s. s;
}

ledger_known :
    (o : OutboxEntry) (s : List String × ℕ)
    → remembers o.event_id (ledger.write_outbox o s).0.0 ≡ true
ledger_known o s = elim (Bool-cases (remembers o.event_id s.0)) [
  | inl y ↦ rw (y) y
  | inr n ↦ rw (n, str_eq_refl o.event_id) refl
]

ledger-KeepsIds : KeepsIds ledger
ledger-KeepsIds = record {
  Known = λ id s. remembers id s.0 ≡ true;
  write-known = λ o s h. rw (h) refl;
  known-write = λ o s new h. ledger_known o s;
  known-buy = λ id u n q p s h. h;
  known-sell = λ id u n q s h. h;
}

abbrev trade : TradeExecutedEvent
trade = record {
  seq = 8;
  timestamp = pos 1000;
  trade_id = "t-1";
  symbol_str = "BTCUSDT";
  taker_order_id = "b-2";
  maker_order_id = "s-1";
  taker_user = "u-1";
  maker_user = "u-2";
  price = pos 101;
  quantity = pos 3;
  taker_side = "buy";
}

abbrev texts : ℤ → Texts ledger
texts now = record { format = λ x. ""; payload = λ e. ""; now = now; commit = unanswered }

handle_trade_executed_transactional_lem_example :
    let r = handle_trade_executed_transactional ledger (texts (pos 1)) trade ([], 0) in
    ((r.0 ≡ ([], 0)) × (r.1 ≢ none))
    ⊎ ((Booked ledger (texts (pos 1)) trade ([], 0) r.0
          ⊎ Duplicate ledger (texts (pos 1)) trade ([], 0) r.0)
        × ((handle_trade_executed_transactional ledger (texts (pos 2)) trade r.0).0 ≡ r.0))
handle_trade_executed_transactional_lem_example =
    handle_trade_executed_transactional_lem ledger (texts (pos 1)) (texts (pos 2)) trade ([], 0)
      ledger-KeepsIds
