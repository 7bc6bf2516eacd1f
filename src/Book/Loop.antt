-- ===== src/Book/Loop.antt =====
-- The matching loops of biz/service/orderbook.go end, and match the order.
use cex_hertz_backend.Base.{
  ℕ, zero, suc, ◌<◌, ℤ, pos_part, String, true, some, List, [], ◌∷◌, ◌≡◌, ◌⊎◌, inl, inr, refl, ◌∙◌,
  arith, Bool-cases,
}
use cex_hertz_backend.Book.Levels.{SkipList}
use cex_hertz_backend.Book.Types.{OrderBookEntry, Float64, Comparable}
use cex_hertz_backend.Book.Matching.{Taker, Progress, crosses, match_loop}
use cex_hertz_backend.Book.Stock.{IsQuantity, IsStocked}
use cex_hertz_backend.Book.Round.{round-empty, round-spent, round-uncrossed}
use cex_hertz_backend.Book.Trades.{crosses-Declines}
use cex_hertz_backend.Book.Matched.{
  Matched, rank, halted, loop-halts, p₁, filled_now, loop-goes_on, after_filled, after_partial,
  partial-eq, rank-filled, IsStocked-filled,
}

pub zero_or_pos : (n : ℕ) → (n ≡ 0) ⊎ (0 < n)
zero_or_pos zero = inl refl
zero_or_pos (suc n) = inr (omega arith)

module _ {F : Float64} (L : SkipList (List OrderBookEntry) (Comparable F)) (taker : Taker)
    (now : ℕ → ℤ) (symbol : String) (order : OrderBookEntry) where
  loop-spent :
      (n : ℕ) (p : Progress L)
      → 0 < n
      → IsQuantity p.remaining_qty
      → pos_part p.remaining_qty ≡ 0
      → match_loop L n taker now symbol order p ≡ some p
  loop-spent zero p h q r = absurd (omega arith)
  loop-spent (suc n) p h q r =
      loop-halts L taker now symbol order n p (round-spent L taker now symbol order p q.0 r)

  abbrev pub Ends : ℕ → Progress L → Type 0
  Ends n p =
      (p' : Progress L) × (match_loop L n taker now symbol order p ≡ some p')
      × Matched L taker now symbol order p p'

  -- One round and the rounds behind it, by the view of the makers.
  front-Ends :
      (n : ℕ)
      → ((p : Progress L)
          → IsStocked (L.view p.levels)
          → IsQuantity p.remaining_qty
          → rank L taker now symbol order p < n
          → Ends n p)
      → (p : Progress L) (best : ℤ) (maker : OrderBookEntry) (rest : List OrderBookEntry)
        (l : List (ℤ × List OrderBookEntry))
      → L.view p.levels ≡ (best, maker ∷ rest) ∷ l
      → IsStocked ((best, maker ∷ rest) ∷ l)
      → IsQuantity p.remaining_qty
      → 0 < pos_part p.remaining_qty
      → crosses taker order.price best ≡ true
      → rank L taker now symbol order p < suc n
      → Ends (suc n) p
  unfolding rank
  front-Ends n ih p best maker rest l v s q r c h =
      elim (Bool-cases (filled_now L taker now symbol order p best maker rest l v s q r c)) [
        | inl e ↦
            let (p', run, m) =
              ih (p₁ L taker now symbol order p best maker rest l v s q r c)
                (IsStocked-filled L taker now symbol order p best maker rest l v s q r c e)
                (refl, omega arith)
                (omega
                  (arith, rank-filled L taker now symbol order p best maker rest l v s q r c e)) in
            (
              p',
              loop-goes_on L taker now symbol order p best maker rest l v s q r c n ∙ run,
              after_filled L taker now symbol order p best maker rest l v s q r c p' e m,
            )
        | inr e ↦
            let m = after_partial L taker now symbol order p best maker rest l v s q r c e in
            let (less, all) = partial-eq L taker now symbol order p best maker rest l v s q r c e in
            let some_left = rw v at h in
            (
              p₁ L taker now symbol order p best maker rest l v s q r c,
              loop-goes_on L taker now symbol order p best maker rest l v s q r c n
                  ∙ loop-spent n (p₁ L taker now symbol order p best maker rest l v s q r c)
                      (omega arith) m.counted (omega arith),
              m,
            )
      ]

  view-Ends :
      (n : ℕ)
      → ((p : Progress L)
          → IsStocked (L.view p.levels)
          → IsQuantity p.remaining_qty
          → rank L taker now symbol order p < n
          → Ends n p)
      → (p : Progress L) (w : List (ℤ × List OrderBookEntry)) → L.view p.levels ≡ w
      → IsStocked w
      → IsQuantity p.remaining_qty
      → rank L taker now symbol order p < suc n
      → Ends (suc n) p
  view-Ends n ih p [] v s q h = (
    p,
    loop-halts L taker now symbol order n p (round-empty L taker now symbol order p v),
    halted L taker now symbol order p (rw v tt) q (inr (rw v tt)),
  )
  view-Ends n ih p ((best, []) ∷ l) v s q h = absurd (s.0.0 refl)
  view-Ends n ih p ((best, maker ∷ rest) ∷ l) v s q h =
      elim (Bool-cases (crosses taker order.price best)) [
        | inr e ↦ (
          p,
          loop-halts L taker now symbol order n p (round-uncrossed L taker now symbol order p v e),
          halted L taker now symbol order p (rw v s) q
              (inr (rw v (crosses-Declines taker order.price best e))),
        )
        | inl c ↦ elim (zero_or_pos (pos_part p.remaining_qty)) [
          | inl z ↦ (
            p,
            loop-halts L taker now symbol order n p (round-spent L taker now symbol order p q.0 z),
            halted L taker now symbol order p (rw v s) q (inl z),
          )
          | inr r ↦ front-Ends n ih p best maker rest l v s q r c h
        ]
      ]

  -- If no level of the makers is empty, each maker is live, the remaining quantity is not negative,
  -- and the fuel is above the rank of the variables, then the loop ends and has matched the order.
  pub match_loop-Matched :
      (n : ℕ) (p : Progress L)
      → IsStocked (L.view p.levels)
      → IsQuantity p.remaining_qty
      → rank L taker now symbol order p < n
      → Ends n p
  match_loop-Matched zero p s q h = absurd (omega arith)
  match_loop-Matched (suc n) p s q h =
      view-Ends n (match_loop-Matched n) p (L.view p.levels) refl s q h
