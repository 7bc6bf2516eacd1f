-- ===== src/Position/Atomic.antt =====
-- The transaction of biz/service/event_processor_position.go: all of a trade or nothing, and once.
use cex_hertz_backend.Base.{
  String, str_eq, ◌≡◌, ◌≢◌, ◌⊎◌, refl, sym, ap, ◌∙◌, arith, Bool, true, false, Option, none, some,
  Bool-cases, inl, inr, if◌then◌else◌,
}
use mathlib.Core.Path.{subst}
use cex_hertz_backend.Events.Types.{TradeExecutedEvent}
use cex_hertz_backend.Position.Handler.{
  PositionDb, Commit, committed, refused, unanswered, Texts, KeepsIds, outbox_entry, move_positions,
  transaction_body, handle_trade_executed_transactional, written, closed, and_then,
}

module _ (P : PositionDb) where
  -- The side of the taker, and that of the maker.
  abbrev pub taker_side : Texts P → TradeExecutedEvent → P.Store → P.Store × Option String
  taker_side t e s =
      if str_eq e.taker_side "buy"
      then P.buy e.taker_user e.symbol_str (t.format e.quantity) (t.format e.price) s
      else P.sell e.taker_user e.symbol_str (t.format e.quantity) s

  abbrev pub maker_side : Texts P → TradeExecutedEvent → P.Store → P.Store × Option String
  maker_side t e s =
      if str_eq e.taker_side "buy"
      then P.sell e.maker_user e.symbol_str (t.format e.quantity) s
      else P.buy e.maker_user e.symbol_str (t.format e.quantity) (t.format e.price) s

  abbrev entered : Texts P → TradeExecutedEvent → P.Store → P.Store × Option Bool
  entered t e s = P.write_outbox (outbox_entry P t e) s

  -- From `s` to `s'` the trade is booked whole: its entry is new to the outbox, then the side of the
  -- taker is moved, and then that of the maker, none with an error.
  pub record Booked (t : Texts P) (e : TradeExecutedEvent) (s s' : P.Store) : Type 0 where
    pub is_new : (entered t e s).1 ≡ some true
    pub taker_done : (taker_side t e (entered t e s).0).1 ≡ none
    pub maker_done : (maker_side t e (taker_side t e (entered t e s).0).0).1 ≡ none
    pub now_there : s' ≡ (maker_side t e (taker_side t e (entered t e s).0).0).0

  -- The outbox finds that it has the entry, and nothing else is done.
  pub record Duplicate (t : Texts P) (e : TradeExecutedEvent) (s s' : P.Store) : Type 0 where
    pub not_new : (entered t e s).1 ≡ some false
    pub left : s' ≡ (entered t e s).0

  and_then_whole :
      (r : P.Store × Option String) (f : P.Store → P.Store × Option String)
      → (and_then P r f).1 ≡ none
      → (r.1 ≡ none) × ((f r.0).1 ≡ none) × ((and_then P r f).0 ≡ (f r.0).0)
  and_then_whole (u, none) f h = (refl, h, refl)
  and_then_whole (u, some x) f h = absurd (cc)

  moved_whole :
      (t : Texts P) (e : TradeExecutedEvent) (s : P.Store)
      → (move_positions P t e s).1 ≡ none
      → ((taker_side t e s).1 ≡ none)
        × ((maker_side t e (taker_side t e s).0).1 ≡ none)
        × ((move_positions P t e s).0 ≡ (maker_side t e (taker_side t e s).0).0)
  unfolding move_positions
  moved_whole t e s h = elim (Bool-cases (str_eq e.taker_side "buy")) [
    | inl y ↦ rw (move_positions, y) (and_then_whole _ _ (rw (y) at h))
    | inr n ↦ rw (move_positions, n) (and_then_whole _ _ (rw (n) at h))
  ]

  body_whole :
      (t : Texts P) (e : TradeExecutedEvent) (s : P.Store)
      → (transaction_body P t e s).1 ≡ none
      → Booked t e s (transaction_body P t e s).0 ⊎ Duplicate t e s (transaction_body P t e s).0
  unfolding transaction_body
  body_whole t e s h = by_answer (entered t e s) refl h
    where
      by_answer :
          (r : P.Store × Option Bool)
          → entered t e s ≡ r
          → (written P t e r).1 ≡ none
          → Booked t e s (written P t e r).0 ⊎ Duplicate t e s (written P t e r).0
      by_answer (u, none) q h = absurd (cc)
      by_answer (u, some false) q h =
          inr (record { not_new = ap (λ r. r.1) q; left = sym (ap (λ r. r.0) q) })
      by_answer (u, some true) q h =
          let m = moved_whole t e u h in
          inl (record {
            is_new = ap (λ r. r.1) q;
            taker_done = rw q m.0;
            maker_done = rw q m.1;
            now_there = rw q m.2;
          })

  move_positions-Known :
      (k : KeepsIds P) (t : Texts P) (e : TradeExecutedEvent) (id : String) (s : P.Store)
      → k.Known id s
      → k.Known id (move_positions P t e s).0
  unfolding move_positions
  move_positions-Known k t e id s h = elim (Bool-cases (str_eq e.taker_side "buy")) [
    | inl y ↦
        rw (move_positions, y)
          (then_sell (P.buy e.taker_user e.symbol_str (t.format e.quantity) (t.format e.price) s)
            (k.known-buy id e.taker_user e.symbol_str (t.format e.quantity) (t.format e.price) s h))
    | inr n ↦
        rw (move_positions, n)
          (then_buy (P.sell e.taker_user e.symbol_str (t.format e.quantity) s)
            (k.known-sell id e.taker_user e.symbol_str (t.format e.quantity) s h))
  ]
    where
      then_sell :
          (r : P.Store × Option String)
          → k.Known id r.0
          → k.Known id
              (and_then P r (λ s'. P.sell e.maker_user e.symbol_str (t.format e.quantity) s')).0
      then_sell (s', some x) h = h
      then_sell (s', none) h = k.known-sell id e.maker_user e.symbol_str (t.format e.quantity) s' h

      then_buy :
          (r : P.Store × Option String)
          → k.Known id r.0
          → k.Known id
              (and_then P r (λ s'.
                P.buy e.maker_user e.symbol_str (t.format e.quantity) (t.format e.price) s')).0
      then_buy (s', some x) h = h
      then_buy (s', none) h =
          k.known-buy id e.maker_user e.symbol_str (t.format e.quantity) (t.format e.price) s' h

  written-Known :
      (k : KeepsIds P) (t : Texts P) (e : TradeExecutedEvent) (r : P.Store × Option Bool)
      → ((new : Bool) → r.1 ≡ some new → k.Known e.trade_id r.0)
      → (written P t e r).1 ≡ none
      → k.Known e.trade_id (written P t e r).0
  written-Known k t e (s, none) h n = absurd (ground arith)
  written-Known k t e (s, some false) h n = h false refl
  written-Known k t e (s, some true) h n = move_positions-Known k t e e.trade_id s (h true refl)

  -- What is known of the store behind a body without an error.
  body-Known :
      (k : KeepsIds P) (t : Texts P) (e : TradeExecutedEvent) (s : P.Store)
      → (transaction_body P t e s).1 ≡ none
      → k.Known e.trade_id (transaction_body P t e s).0
  unfolding transaction_body
  body-Known k t e s h =
      written-Known k t e (entered t e s) (λ new w. k.known-write (outbox_entry P t e) s new w) h

  again :
      (k : KeepsIds P) (t : Texts P) (e : TradeExecutedEvent) (u : P.Store)
      → k.Known e.trade_id u
      → (handle_trade_executed_transactional P t e u).0 ≡ u
  unfolding handle_trade_executed_transactional transaction_body
  again k t e u known =
      let found = k.write-known (outbox_entry P t e) u known in
      rw (handle_trade_executed_transactional, transaction_body, found) (by_commit t.commit)
    where
      by_commit : (c : Commit) → (closed P c u (u, none)).0 ≡ u
      by_commit committed = refl
      by_commit refused = refl
      by_commit unanswered = refl

  -- Of a database that keeps the ids of its outbox, also where the answer of a commit is lost: a call
  -- either leaves the store as it was and answers an error, or it leaves a store in which the trade is
  -- booked whole, its entry and both its sides, or in which the outbox had it already, and then any
  -- later call for this trade leaves that store; a call without an error is one of the latter.
  pub handle_trade_executed_transactional_lem :
      (t t' : Texts P) (e : TradeExecutedEvent) (s : P.Store)
      → KeepsIds P
      → let r = handle_trade_executed_transactional P t e s in
        ((r.0 ≡ s) × (r.1 ≢ none))
        ⊎ ((Booked t e s r.0 ⊎ Duplicate t e s r.0)
            × ((handle_trade_executed_transactional P t' e r.0).0 ≡ r.0))
  unfolding handle_trade_executed_transactional
  handle_trade_executed_transactional_lem t t' e s k =
      by_body t.commit (transaction_body P t e s) refl
    where
      whole :
          (r : P.Store × Option String)
          → transaction_body P t e s ≡ r
          → r.1 ≡ none
          → (Booked t e s r.0 ⊎ Duplicate t e s r.0)
            × ((handle_trade_executed_transactional P t' e r.0).0 ≡ r.0)
      whole r q h =
          let h' = ap (λ x. x.1) q ∙ h in
          (
            subst (λ x. Booked t e s x.0 ⊎ Duplicate t e s x.0) q (body_whole t e s h'),
            again k t' e r.0 (subst (λ x. k.Known e.trade_id x.0) q (body-Known k t e s h')),
          )

      by_body :
          (c : Commit) (r : P.Store × Option String)
          → transaction_body P t e s ≡ r
          → (((closed P c s r).0 ≡ s) × ((closed P c s r).1 ≢ none))
            ⊎ ((Booked t e s (closed P c s r).0 ⊎ Duplicate t e s (closed P c s r).0)
                × ((handle_trade_executed_transactional P t' e (closed P c s r).0).0
                    ≡ (closed P c s r).0))
      by_body c (u, some x) q = inl (refl, λ h. cc)
      by_body committed (u, none) q = inr (whole (u, none) q refl)
      by_body refused (u, none) q = inl (refl, λ h. cc)
      by_body unanswered (u, none) q = inr (whole (u, none) q refl)
