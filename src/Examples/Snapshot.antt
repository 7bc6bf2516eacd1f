-- ===== src/Examples/Snapshot.antt =====
-- The comparison of snapshots at concrete inputs, with the text itself as its hash.
use cex_hertz_backend.Base.{
  pos, String, str_eq, str_eq_iff, true, false, not, ◌&&◌, Option, none, some, [], ◌∷◌, ◌≡◌, ◌≢◌,
  ◌↔◌, refl, arith, Dict, lookup, decimal,
}
use cex_hertz_backend.Snapshot.Types.{OrderSnapshot, OrderBookSnapshot, StateSnapshot}
use cex_hertz_backend.Snapshot.Checksum.{canonical, sort, insert_sorted}
use cex_hertz_backend.Snapshot.Find.{absent, compare_order_books}
use cex_hertz_backend.Snapshot.Compare.{compare_snapshots, has_differences}
use cex_hertz_backend.Snapshot.Listed.{contains}
use cex_hertz_backend.Snapshot.Validator.{
  RecoveryCheckpoint, new_state_validator, validate_recovery_state, get_last_validation_result,
  PositionsAgree, validate_recovery_state_iff,
}
use cex_hertz_backend.Snapshot.Verdict.{
  has_differences-compare_snapshots, compare_snapshots_lists, with_depths,
  compare_snapshots_misses_depths,
}

abbrev order : OrderSnapshot
order = record {
  order_id = "o-1";
  user_id = "u-1";
  symbol = "BTCUSDT";
  side = "buy";
  price = pos 100;
  quantity = pos 5;
  filled_qty = pos 2;
  status = "partial";
  created_at = pos 1;
  updated_at = pos 2;
}

abbrev book : OrderBookSnapshot
book = record {
  symbol = "BTCUSDT";
  last_trade_price = pos 100;
  bid_book = (pos 100, pos 3) ∷ [];
  ask_book = [];
  best_bid = pos 100;
  best_ask = pos 0;
  bid_depth = pos 3;
  ask_depth = pos 0;
  spread = pos 0;
}

abbrev snapshot : Dict OrderSnapshot → StateSnapshot
snapshot orders = record {
  timestamp = pos 0;
  orders = orders;
  trades = [];
  positions = [];
  order_book = some book;
  checksum = "";
  event_count = pos 0;
  order_count = pos 0;
  trade_count = pos 0;
  position_count = pos 0;
}

abbrev full : StateSnapshot
full = snapshot (("o-1", order) ∷ [])

abbrev bare : StateSnapshot
bare = snapshot []

has_differences-compare_snapshots_example :
    has_differences (compare_snapshots (λ s. s) (pos 9) full bare)
    ≡ not (str_eq (canonical full) (canonical bare))
has_differences-compare_snapshots_example =
    has_differences-compare_snapshots (λ s. s) (pos 9) full bare

compare_snapshots_misses_depths_example :
    let d =
      compare_snapshots
        (λ s. s)
        (pos 9)
        full
        (with_depths (pos 5) (pos 4) (pos 1) (pos 2) book full) in
    (d.is_identical ≡ true)
    × (d.order_book_diff ≡ none)
    × (compare_order_books book
          (record book { bid_depth = pos 4; ask_depth = pos 1; spread = pos 2 })
        ≢ none)
compare_snapshots_misses_depths_example =
    compare_snapshots_misses_depths (λ s. s) (pos 9) (pos 5) (pos 4) (pos 1) (pos 2) book full refl
      (λ e. ground arith)

full_differs : canonical full ≢ canonical bare
unfolding canonical sort insert_sorted lookup decimal
full_differs e = let same : false ≡ true = (str_eq_iff _ _).1 e in cc

compare_snapshots_lists_example :
    let d = compare_snapshots (λ s. s) (pos 9) full bare in
    (contains "o-1" d.missing_orders ≡ (not (absent "o-1" full.orders) && absent "o-1" bare.orders))
    × (contains "o-1" d.extra_orders ≡ (not (absent "o-1" bare.orders) && absent "o-1" full.orders))
    × (contains "o-1" d.missing_trades
        ≡ (not (absent "o-1" full.trades) && absent "o-1" bare.trades))
    × (contains "o-1" d.extra_trades ≡ (not (absent "o-1" bare.trades) && absent "o-1" full.trades))
    × (contains "o-1" d.missing_positions
        ≡ (not (absent "o-1" full.positions) && absent "o-1" bare.positions))
    × (contains "o-1" d.extra_positions
        ≡ (not (absent "o-1" bare.positions) && absent "o-1" full.positions))
compare_snapshots_lists_example =
    compare_snapshots_lists (λ s. s) (pos 9) full bare "o-1" full_differs

abbrev checkpoint : String → RecoveryCheckpoint String
checkpoint sum = record {
  timestamp = pos 0;
  last_event_seq = 7;
  order_count = pos 1;
  trade_count = pos 0;
  order_book = some "book";
  positions = none;
  state_checksum = sum;
  bid_levels = pos 0;
  ask_levels = pos 0;
  total_bid_qty = pos 0;
  total_ask_qty = pos 0;
}

abbrev show : Option String → String
show none = "<nil>"
show (some s) = s

validate_recovery_state_iff_example :
    (((validate_recovery_state show
          (λ c. "")
          new_state_validator
          (some (checkpoint "a"))
          (some (checkpoint "b"))).1.is_valid
        ≡ true)
      ↔ ((◌≡◌ {A = String} "a" "b")
          × (pos 1 ≡ pos 1)
          × (pos 0 ≡ pos 0)
          × PositionsAgree show none none))
    × (get_last_validation_result
          (validate_recovery_state show
            (λ c. "")
            new_state_validator
            (some (checkpoint "a"))
            (some (checkpoint "b"))).0
        ≡ (some (checkpoint "a"), some (checkpoint "b")))
    × ((validate_recovery_state show
          (λ c. "")
          new_state_validator
          none
          (some (checkpoint "b"))).1.is_valid
        ≡ false)
    × ((validate_recovery_state show
          (λ c. "")
          new_state_validator
          (some (checkpoint "b"))
          none).1.is_valid
        ≡ false)
    × ((validate_recovery_state show (λ c. "") new_state_validator none (some (checkpoint "b"))).0
        ≡ new_state_validator)
    × ((validate_recovery_state show (λ c. "") new_state_validator (some (checkpoint "b")) none).0
        ≡ new_state_validator)
validate_recovery_state_iff_example =
    validate_recovery_state_iff show (λ c. "") new_state_validator (checkpoint "a") (checkpoint "b")
      (some (checkpoint "b"))
