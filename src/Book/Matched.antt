-- ===== src/Book/Matched.antt =====
-- What a whole matching loop of biz/service/orderbook.go does, and one trade of it.
use Prim.Native.Nat.{min}
use cex_hertz_backend.Base.{
  ℕ, suc, ◌+◌, ◌<◌, ℤ, pos, pos_part, String, Bool, true, false, none, some, List, [], ◌∷◌, ◌++◌,
  ◌≡◌, ◌⊎◌, inl, refl, sym, ◌∙◌, ap, arith, All, length, take, leb_ℤ, if◌then◌else◌,
}
use mathlib.Core.List.{append-nil, append_assoc}
use cex_hertz_backend.Events.Types.{TradeExecutedEvent}
use cex_hertz_backend.Book.Levels.{SkipList}
use cex_hertz_backend.Book.Types.{OrderBookEntry, Float64, Comparable}
use cex_hertz_backend.Book.Matching.{Taker, Progress, crosses, trade, round, match_loop}
use cex_hertz_backend.Book.Orders.{order_count}
use cex_hertz_backend.Book.Stock.{
  IsQuantity, IsStocked, open_qty, open_levels, traded, restore, view-fill_first,
}
use cex_hertz_backend.Book.Round.{met_qty, met, round-met}
use cex_hertz_backend.Book.Trades.{
  crosses-Accepts, level_offers, maker_offers, Uncrossed, IsFair, order_count-restore,
  open_levels-restore, level_offers-restore, IsStocked-restore,
}

module _ {F : Float64} (L : SkipList (List OrderBookEntry) (Comparable F)) (taker : Taker)
    (now : ℕ → ℤ) (symbol : String) (order : OrderBookEntry) where
  -- From `p` to `p'`, by the trades `es`.
  pub record Matched (p p' : Progress L) : Type 0 where
    pub es : List TradeExecutedEvent
    pub appended : p'.events ≡ p.events ++ es
    pub fair : All (IsFair taker symbol order) es
    pub spent : pos_part p'.remaining_qty + traded es ≡ pos_part p.remaining_qty
    pub supplied : open_levels (L.view p'.levels) + traded es ≡ open_levels (L.view p.levels)
    pub served : maker_offers es ≡ take (length es) (level_offers (L.view p.levels))
    pub stocked : IsStocked (L.view p'.levels)
    pub counted : IsQuantity p'.remaining_qty
    pub finished : (pos_part p'.remaining_qty ≡ 0) ⊎ Uncrossed taker order.price (L.view p'.levels)

  unfoldable pub rank : Progress L → ℕ
  rank p = order_count (L.view p.levels) + min 1 (pos_part p.remaining_qty)

  -- A loop that ends at once.
  pub halted :
      (p : Progress L)
      → IsStocked (L.view p.levels)
      → IsQuantity p.remaining_qty
      → (pos_part p.remaining_qty ≡ 0) ⊎ Uncrossed taker order.price (L.view p.levels)
      → Matched p p
  halted p s q f = record {
    es = [];
    appended = sym (append-nil p.events);
    fair = tt;
    spent = omega arith;
    supplied = omega arith;
    served = refl;
    stocked = s;
    counted = q;
    finished = f;
  }

  pub loop-halts :
      (n : ℕ) (p : Progress L)
      → round L taker now symbol order p ≡ none
      → match_loop L (suc n) taker now symbol order p ≡ some p
  unfolding match_loop
  loop-halts n p e = rw (e, match_loop)

  module _ (p : Progress L) (best : ℤ) (maker : OrderBookEntry) (rest : List OrderBookEntry)
      (l : List (ℤ × List OrderBookEntry)) (v : L.view p.levels ≡ (best, maker ∷ rest) ∷ l)
      (s : IsStocked ((best, maker ∷ rest) ∷ l)) (q : IsQuantity p.remaining_qty)
      (r : 0 < pos_part p.remaining_qty) (c : crosses taker order.price best ≡ true) where
    abbrev pub p₁ : Progress L
    p₁ = met L taker now symbol order p best maker rest

    abbrev pub t : ℕ
    t = met_qty L taker now symbol order p maker

    abbrev pub filled_now : Bool
    filled_now = leb_ℤ maker.quantity (pos (pos_part maker.filled_qty + t))

    abbrev event : TradeExecutedEvent
    event = trade L taker now symbol order maker best (pos t) p.events p.sequencer

    pub loop-goes_on :
        (n : ℕ)
        → match_loop L (suc n) taker now symbol order p ≡ match_loop L n taker now symbol order p₁
    unfolding match_loop
    loop-goes_on n = rw (round-met L taker now symbol order p v q r s.0.1.0 c, match_loop)

    event-IsFair : IsFair taker symbol order event
    event-IsFair = (omega arith, refl, crosses-Accepts taker order.price best c, refl, refl, refl)

    view₁ : L.view p₁.levels ≡ (
        if filled_now
        then restore best rest l
        else (best, record maker { filled_qty = pos (pos_part maker.filled_qty + t) } ∷ rest) ∷ l)
    view₁ = view-fill_first L p.levels best v maker rest t s.0.1.0 (omega arith)

    filled-eq : filled_now ≡ true → t ≡ open_qty maker
    filled-eq e = ground arith

    pub partial-eq :
        filled_now ≡ false
        → (pos_part maker.filled_qty + t < pos_part maker.quantity) × (t ≡ pos_part p.remaining_qty)
    partial-eq e = ground arith

    -- The maker is filled, and the loop goes on behind it.
    pub after_filled : (p' : Progress L) → filled_now ≡ true → Matched p₁ p' → Matched p p'
    after_filled p' e m =
        let view' : L.view p₁.levels ≡ restore best rest l = rw e at view₁ in
        let supply = rw view' at m.supplied in
        let serve = rw (view', level_offers-restore best rest l) at m.served in
        record {
          es = event ∷ m.es;
          appended = m.appended ∙ append_assoc p.events (event ∷ []) m.es;
          fair = (event-IsFair, m.fair);
          spent = omega (arith, m.spent);
          supplied = rw v (omega (arith, supply, open_levels-restore best rest l, filled-eq e));
          served = rw v (ap (λ ids. (maker.order_id, best) ∷ ids) serve);
          stocked = m.stocked;
          counted = m.counted;
          finished = m.finished;
        }

    -- The order is filled, and the maker stays at the front.
    pub after_partial : filled_now ≡ false → Matched p p₁
    after_partial e =
        let view' = rw e at view₁ in
        let (less, all) = partial-eq e in
        record {
          es = event ∷ [];
          appended = refl;
          fair = (event-IsFair, tt);
          spent = omega arith;
          supplied = rw (v, view') (omega arith);
          served = rw v refl;
          stocked = rw view' (((λ n. cc), ((refl, less, s.0.1.0.2), s.0.1.1)), s.1);
          counted = (refl, omega arith);
          finished = inl (omega arith);
        }

    pub rank-filled : filled_now ≡ true → rank p₁ < rank p
    unfolding rank
    rank-filled e =
        let view' : L.view p₁.levels ≡ restore best rest l = rw e at view₁ in
        rw (v, view') (omega (arith, order_count-restore best rest l))

    pub IsStocked-filled : filled_now ≡ true → IsStocked (L.view p₁.levels)
    IsStocked-filled e =
        let view' : L.view p₁.levels ≡ restore best rest l = rw e at view₁ in
        rw view' (IsStocked-restore best rest l s.0.1.1 s.1)
