-- ===== src/Snapshot/Verdict.antt =====
-- The verdict of a comparison of snapshots, biz/service/state_snapshot.go.
use cex_hertz_backend.Base.{
  ℤ, String, str_eq, str_eq_iff, true, not, ◌&&◌, none, some, ◌≡◌, ◌≢◌, refl, sym, ap, Bool-cases,
  inl, inr,
}
use cex_hertz_backend.Snapshot.Types.{StateSnapshot, OrderBookSnapshot}
use cex_hertz_backend.Snapshot.Checksum.{canonical, calculate_checksum}
use cex_hertz_backend.Snapshot.Find.{
  absent, find_missing_orders, find_extra_orders, find_missing_trades, find_extra_trades,
  find_missing_positions, find_extra_positions, compare_order_books,
}
use cex_hertz_backend.Snapshot.Compare.{compare_snapshots, has_differences}
use cex_hertz_backend.Snapshot.Listed.{contains, contains-only_in_first, compare_order_books_iff}

-- A comparison reports a difference exactly when the checksums of the two snapshots differ.
pub has_differences-compare_snapshots :
    (hash : String → String) (now : ℤ) (pre post : StateSnapshot)
    → has_differences (compare_snapshots hash now pre post)
      ≡ not (str_eq (hash (canonical pre)) (hash (canonical post)))
unfolding has_differences compare_snapshots calculate_checksum
has_differences-compare_snapshots hash now pre post =
    elim (Bool-cases (str_eq (hash (canonical pre)) (hash (canonical post)))) [
      | inl y ↦ rw (has_differences, compare_snapshots, y) refl
      | inr n ↦ rw (has_differences, compare_snapshots, n) refl
    ]

-- When the checksums differ, an order is listed as missing exactly when the first snapshot has it and
-- the second lacks it, and as extra the other way round; and so are trades and positions.
pub compare_snapshots_lists :
    (hash : String → String) (now : ℤ) (pre post : StateSnapshot) (id : String)
    → hash (canonical pre) ≢ hash (canonical post)
    → let d = compare_snapshots hash now pre post in
      (contains id d.missing_orders ≡ (not (absent id pre.orders) && absent id post.orders))
      × (contains id d.extra_orders ≡ (not (absent id post.orders) && absent id pre.orders))
      × (contains id d.missing_trades ≡ (not (absent id pre.trades) && absent id post.trades))
      × (contains id d.extra_trades ≡ (not (absent id post.trades) && absent id pre.trades))
      × (contains id d.missing_positions
          ≡ (not (absent id pre.positions) && absent id post.positions))
      × (contains id d.extra_positions
          ≡ (not (absent id post.positions) && absent id pre.positions))
unfolding compare_snapshots calculate_checksum find_missing_orders find_extra_orders
    find_missing_trades find_extra_trades find_missing_positions find_extra_positions
compare_snapshots_lists hash now pre post id differ =
    elim (Bool-cases (str_eq (hash (canonical pre)) (hash (canonical post)))) [
      | inl y ↦ absurd (differ ((str_eq_iff (hash (canonical pre)) (hash (canonical post))).0 y))
      | inr n ↦
          rw (compare_snapshots, n)
            (
              contains-only_in_first id pre.orders post.orders,
              contains-only_in_first id post.orders pre.orders,
              contains-only_in_first id pre.trades post.trades,
              contains-only_in_first id post.trades pre.trades,
              contains-only_in_first id pre.positions post.positions,
              contains-only_in_first id post.positions pre.positions,
            )
    ]

-- The snapshot with other depths and another spread in its order book, and other times.
abbrev pub with_depths : ℤ → ℤ → ℤ → ℤ → OrderBookSnapshot → StateSnapshot → StateSnapshot
with_depths time bids asks spread b s = record s {
  timestamp = time;
  order_book = some (record b { bid_depth = bids; ask_depth = asks; spread = spread });
}

canonical_depths :
    (time bids asks spread : ℤ) (b : OrderBookSnapshot) (s : StateSnapshot)
    → s.order_book ≡ some b
    → canonical s ≡ canonical (with_depths time bids asks spread b s)
unfolding canonical
canonical_depths time bids asks spread b s book = rw (canonical, book) refl

-- Two snapshots that differ only in the depths and the spread of their order book are found identical
-- and no difference of the books is reported, also when the comparison of the books by itself finds
-- one.
pub compare_snapshots_misses_depths :
    (hash : String → String) (now time bids asks spread : ℤ) (b : OrderBookSnapshot)
    (s : StateSnapshot)
    → s.order_book ≡ some b
    → bids ≢ b.bid_depth
    → let d = compare_snapshots hash now s (with_depths time bids asks spread b s) in
      (d.is_identical ≡ true)
      × (d.order_book_diff ≡ none)
      × (compare_order_books b (record b { bid_depth = bids; ask_depth = asks; spread = spread })
          ≢ none)
unfolding compare_snapshots calculate_checksum
compare_snapshots_misses_depths hash now time bids asks spread b s book differ =
    let b' : OrderBookSnapshot = record b { bid_depth = bids; ask_depth = asks; spread = spread } in
    let same : str_eq (hash (canonical s))
          (hash (canonical (with_depths time bids asks spread b s)))
        ≡ true =
      (str_eq_iff _ _).1 (ap hash (canonical_depths time bids asks spread b s book)) in
    rw (compare_snapshots, same)
      (refl, refl, λ n. differ (sym (((compare_order_books_iff b b').0 n).2)))
