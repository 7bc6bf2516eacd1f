-- ===== src/Snapshot/Find.antt =====
-- The searches for differences of biz/service/state_snapshot.go. The changes stand in the order of
-- the map, which is not known.
use cex_hertz_backend.Base.{
  ℤ, String, str_eq, Bool, true, false, not, ◌||◌, Option, none, some, List, [], ◌∷◌, ◌++◌, Dict,
  lookup, eq_ℤ, keep, if◌then◌else◌,
}
use cex_hertz_backend.Snapshot.Types.{
  OrderSnapshot, TradeSnapshot, PositionSnapshot, OrderBookSnapshot, number, text, OrderChange,
  PositionChange, OrderBookDiff,
}
use cex_hertz_backend.Snapshot.Checksum.{leb_str, sort, ids}

abbrev pub absent {ℓ} : {V : Type ℓ} → String → Dict V → Bool
absent k m = elim (lookup k m) [ none ↦ true | some v ↦ false ]

-- The keys of `pre` that `post` lacks, sorted.
abbrev pub only_in_first {ℓ} : {V : Type ℓ} → Dict V → Dict V → List String
only_in_first pre post = sort leb_str (keep (λ k. absent k post) (ids pre))

unfoldable pub find_missing_orders : Dict OrderSnapshot → Dict OrderSnapshot → List String
find_missing_orders pre post = only_in_first pre post

unfoldable pub find_extra_orders : Dict OrderSnapshot → Dict OrderSnapshot → List String
find_extra_orders pre post = only_in_first post pre

unfoldable pub find_missing_trades : Dict TradeSnapshot → Dict TradeSnapshot → List String
find_missing_trades pre post = only_in_first pre post

unfoldable pub find_extra_trades : Dict TradeSnapshot → Dict TradeSnapshot → List String
find_extra_trades pre post = only_in_first post pre

unfoldable pub find_missing_positions : Dict PositionSnapshot → Dict PositionSnapshot → List String
find_missing_positions pre post = only_in_first pre post

unfoldable pub find_extra_positions : Dict PositionSnapshot → Dict PositionSnapshot → List String
find_extra_positions pre post = only_in_first post pre

abbrev number_change : String → String → ℤ → ℤ → List OrderChange
number_change id name a b =
    if eq_ℤ a b
    then []
    else record { order_id = id; field = name; expected = number a; actual = number b } ∷ []

abbrev text_change : String → String → String → String → List OrderChange
text_change id name a b =
    if str_eq a b
    then []
    else record { order_id = id; field = name; expected = text a; actual = text b } ∷ []

abbrev pub order_changes : String → OrderSnapshot → OrderSnapshot → List OrderChange
order_changes id a b =
    number_change id "Price" a.price b.price
    ++ (number_change id "Quantity" a.quantity b.quantity
        ++ (number_change id "FilledQty" a.filled_qty b.filled_qty
            ++ text_change id "Status" a.status b.status))

unfoldable pub find_changed_orders : Dict OrderSnapshot → Dict OrderSnapshot → List OrderChange
find_changed_orders [] post = []
find_changed_orders ((id, a) ∷ pre) post = elim (lookup id post) [
  | none ↦ find_changed_orders pre post
  | some b ↦ order_changes id a b ++ find_changed_orders pre post
]

abbrev position_change : String → String → ℤ → ℤ → List PositionChange
position_change id name a b =
    if eq_ℤ a b then [] else record { user_id = id; field = name; expected = a; actual = b } ∷ []

abbrev pub position_changes : String → PositionSnapshot → PositionSnapshot → List PositionChange
position_changes id a b =
    position_change id "QuantityHeld" a.quantity_held b.quantity_held
    ++ (position_change id "CostBase" a.cost_base b.cost_base
        ++ (position_change id "RealizedPnl" a.realized_pnl b.realized_pnl
            ++ position_change id "UnrealizedPnl" a.unrealized_pnl b.unrealized_pnl))

unfoldable pub find_changed_positions :
    Dict PositionSnapshot → Dict PositionSnapshot → List PositionChange
find_changed_positions [] post = []
find_changed_positions ((id, a) ∷ pre) post = elim (lookup id post) [
  | none ↦ find_changed_positions pre post
  | some b ↦ position_changes id a b ++ find_changed_positions pre post
]

-- `none` is nil: no difference.
unfoldable pub compare_order_books : OrderBookSnapshot → OrderBookSnapshot → Option OrderBookDiff
compare_order_books pre post =
    let d : OrderBookDiff = record {
      best_bid_mismatch = not (eq_ℤ pre.best_bid post.best_bid);
      best_ask_mismatch = not (eq_ℤ pre.best_ask post.best_ask);
      bid_depth_mismatch = not (eq_ℤ pre.bid_depth post.bid_depth);
      ask_depth_mismatch = not (eq_ℤ pre.ask_depth post.ask_depth);
      spread_mismatch = not (eq_ℤ pre.spread post.spread);
      pre_best_bid = pre.best_bid;
      post_best_bid = post.best_bid;
      pre_best_ask = pre.best_ask;
      post_best_ask = post.best_ask;
      pre_bid_depth = pre.bid_depth;
      post_bid_depth = post.bid_depth;
      pre_ask_depth = pre.ask_depth;
      post_ask_depth = post.ask_depth;
      pre_spread = pre.spread;
      post_spread = post.spread;
    } in
    if d.best_bid_mismatch || d.best_ask_mismatch || d.bid_depth_mismatch || d.ask_depth_mismatch
      || d.spread_mismatch
    then some d
    else none
