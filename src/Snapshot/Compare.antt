-- ===== src/Snapshot/Compare.antt =====
-- `CompareSnapshots` and `HasDifferences` of biz/service/state_snapshot.go.
use cex_hertz_backend.Base.{
  ℤ, String, str_eq, Bool, true, false, not, ◌||◌, Option, none, some, List, [], ◌∷◌, eq_ℤ,
  if◌then◌else◌,
}
use cex_hertz_backend.Snapshot.Types.{
  StateSnapshot, SnapshotDiff, CountMismatch, OrderBookSnapshot, OrderBookDiff,
}
use cex_hertz_backend.Snapshot.Checksum.{calculate_checksum}
use cex_hertz_backend.Snapshot.Find.{
  find_missing_orders, find_extra_orders, find_changed_orders, find_missing_trades,
  find_extra_trades, find_missing_positions, find_extra_positions, find_changed_positions,
  compare_order_books,
}

abbrev count_mismatch : String → ℤ → ℤ → Option CountMismatch
count_mismatch name a b =
    if eq_ℤ a b then none else some (record { field = name; expected = a; actual = b })

abbrev book_diff : Option OrderBookSnapshot → Option OrderBookSnapshot → Option OrderBookDiff
book_diff none post = none
book_diff (some a) none = none
book_diff (some a) (some b) = compare_order_books a b

-- The differences before anything but the checksums is compared.
abbrev pub started : String → String → ℤ → SnapshotDiff
started a b now = record {
  pre_checksum = a;
  post_checksum = b;
  is_identical = false;
  timestamp = now;
  event_count_mismatch = none;
  order_count_mismatch = none;
  trade_count_mismatch = none;
  position_count_mismatch = none;
  missing_orders = [];
  extra_orders = [];
  changed_orders = [];
  missing_trades = [];
  extra_trades = [];
  missing_positions = [];
  extra_positions = [];
  changed_positions = [];
  order_book_diff = none;
}

unfoldable pub compare_snapshots :
    (String → String) → ℤ → StateSnapshot → StateSnapshot → SnapshotDiff
unfolding calculate_checksum
compare_snapshots hash now pre post =
    let d = started ((calculate_checksum hash pre).1) ((calculate_checksum hash post).1) now in
    if str_eq ((calculate_checksum hash pre).1) ((calculate_checksum hash post).1)
    then record d { is_identical = true }
    else record d {
      event_count_mismatch = count_mismatch "EventCount" pre.event_count post.event_count;
      order_count_mismatch = count_mismatch "OrderCount" pre.order_count post.order_count;
      trade_count_mismatch = count_mismatch "TradeCount" pre.trade_count post.trade_count;
      position_count_mismatch =
          count_mismatch "PositionCount" pre.position_count post.position_count;
      missing_orders = find_missing_orders pre.orders post.orders;
      extra_orders = find_extra_orders pre.orders post.orders;
      changed_orders = find_changed_orders pre.orders post.orders;
      missing_trades = find_missing_trades pre.trades post.trades;
      extra_trades = find_extra_trades pre.trades post.trades;
      missing_positions = find_missing_positions pre.positions post.positions;
      extra_positions = find_extra_positions pre.positions post.positions;
      changed_positions = find_changed_positions pre.positions post.positions;
      order_book_diff = book_diff pre.order_book post.order_book;
    }

abbrev is_set {ℓ} : {A : Type ℓ} → Option A → Bool
is_set none = false
is_set (some a) = true

abbrev nonempty {ℓ} : {A : Type ℓ} → List A → Bool
nonempty [] = false
nonempty (x ∷ xs) = true

unfoldable pub has_differences : SnapshotDiff → Bool
has_differences d =
    not d.is_identical
    || is_set d.event_count_mismatch
    || is_set d.order_count_mismatch
    || is_set d.trade_count_mismatch
    || is_set d.position_count_mismatch
    || nonempty d.missing_orders
    || nonempty d.extra_orders
    || nonempty d.changed_orders
    || nonempty d.missing_trades
    || nonempty d.extra_trades
    || nonempty d.missing_positions
    || nonempty d.extra_positions
    || nonempty d.changed_positions
    || is_set d.order_book_diff
