-- ===== src/Book/Round.antt =====
-- One round of a matching loop of biz/service/orderbook.go on a book whose entries are live.
use Prim.Native.Nat.{min}
use cex_hertz_backend.Base.{
  ℕ, ◌-◌, ◌<◌, ℤ, pos, pos_part, neg_part, String, true, false, none, some, List, [], ◌∷◌, ◌++◌,
  ◌≡◌, refl, arith, sub64, ltb, ltb_ℤ, leb_ℤ,
}
use cex_hertz_backend.Sequencer.{next_global_seq}
use cex_hertz_backend.Book.Levels.{SkipList}
use cex_hertz_backend.Book.Types.{OrderBookEntry, Float64, Comparable}
use cex_hertz_backend.Book.Matching.{Taker, Progress, crosses, fill_first, trade, round}
use cex_hertz_backend.Book.Stock.{IsLive, IsQuantity, open_qty, sub64_pos, min_quantity_pos}

module _ {F : Float64} (L : SkipList (List OrderBookEntry) (Comparable F)) (taker : Taker)
    (now : ℕ → ℤ) (symbol : String) (order : OrderBookEntry) (p : Progress L) where
  -- What the first order of the best level and the order trade.
  abbrev pub met_qty : OrderBookEntry → ℕ
  met_qty maker = min (pos_part p.remaining_qty) (open_qty maker)

  -- The variables after a trade with the first order of the best level.
  abbrev pub met : ℤ → OrderBookEntry → List OrderBookEntry → Progress L
  met best maker rest = record {
    levels = fill_first L p.levels best maker rest (pos (met_qty maker));
    remaining_qty = pos (pos_part p.remaining_qty - met_qty maker);
    events =
        p.events
        ++ trade L taker now symbol order maker best (pos (met_qty maker)) p.events p.sequencer
          ∷ [];
    sequencer = (next_global_seq p.sequencer).0;
  }

  pub round-met :
      {best : ℤ} {maker : OrderBookEntry} {rest : List OrderBookEntry}
      {l : List (ℤ × List OrderBookEntry)}
      → L.view p.levels ≡ (best, maker ∷ rest) ∷ l
      → IsQuantity p.remaining_qty
      → 0 < pos_part p.remaining_qty
      → IsLive maker
      → crosses taker order.price best ≡ true
      → round L taker now symbol order p ≡ some (met best maker rest)
  unfolding round
  round-met {best} {maker} {rest} {l} v q r h c =
      let front : L.front p.levels ≡ some (best, maker ∷ rest) = rw (L.front-view p.levels, v) in
      let full : ltb 0 (L.len p.levels) ≡ true = rw (L.len-view p.levels, v) (ground arith) in
      let more : ltb_ℤ (pos 0) p.remaining_qty ≡ true = ground arith in
      let avail : sub64 maker.quantity maker.filled_qty ≡ pos (open_qty maker) =
        sub64_pos maker.quantity maker.filled_qty (ground arith) h.0 (omega arith) in
      let least = min_quantity_pos p.remaining_qty (open_qty maker) q.0 in
      let some_qty : leb_ℤ (pos (met_qty maker)) (pos 0) ≡ false = ground arith in
      let left : sub64 p.remaining_qty (pos (met_qty maker))
          ≡ pos (pos_part p.remaining_qty - met_qty maker) =
        sub64_pos p.remaining_qty (pos (met_qty maker)) q refl (omega arith) in
      rw (more, full, front, c, avail, least, some_qty, left)

  pub round-empty : L.view p.levels ≡ [] → round L taker now symbol order p ≡ none
  unfolding round
  round-empty v =
      let empty : ltb 0 (L.len p.levels) ≡ false = rw (L.len-view p.levels, v) (ground arith) in
      rw empty (ground arith)

  pub round-spent :
      neg_part p.remaining_qty ≡ 0
      → pos_part p.remaining_qty ≡ 0
      → round L taker now symbol order p ≡ none
  unfolding round
  round-spent q r = let spent : ltb_ℤ (pos 0) p.remaining_qty ≡ false = ground arith in rw spent

  pub round-uncrossed :
      {best : ℤ} {maker : OrderBookEntry} {rest : List OrderBookEntry}
      {l : List (ℤ × List OrderBookEntry)}
      → L.view p.levels ≡ (best, maker ∷ rest) ∷ l
      → crosses taker order.price best ≡ false
      → round L taker now symbol order p ≡ none
  unfolding round
  round-uncrossed {best} {maker} {rest} v c =
      let front : L.front p.levels ≡ some (best, maker ∷ rest) = rw (L.front-view p.levels, v) in
      rw (front, c) (ground arith)
