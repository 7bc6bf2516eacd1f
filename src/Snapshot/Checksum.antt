-- ===== src/Snapshot/Checksum.antt =====
-- The sorts of biz/service/state_snapshot.go and its checksum.
use Prim.Native.String.{◌++◌, compare}
use Prim.Native.Nat.{Ordering}
use cex_hertz_backend.Base.{
  ℤ, String, Bool, true, false, Option, none, some, List, [], ◌∷◌, Dict, lookup, leb_ℤ,
  if◌then◌else◌,
}
use cex_hertz_backend.Pipeline.Context.{print_int}
use cex_hertz_backend.Snapshot.Types.{
  OrderSnapshot, TradeSnapshot, PositionSnapshot, OrderBookSnapshot, StateSnapshot,
}

-- Whether a text comes before another or is the same, by its bytes.
abbrev pub leb_str : String → String → Bool
leb_str s t = elim (compare s t) [ Ordering.gt ↦ false | _ ↦ true ]

module _ {ℓ} {A : Type ℓ} (leb : A → A → Bool) where
  unfoldable pub insert_sorted : A → List A → List A
  insert_sorted x [] = x ∷ []
  insert_sorted x (y ∷ ys) = if leb x y then x ∷ y ∷ ys else y ∷ insert_sorted x ys

  unfoldable pub sort : List A → List A
  unfolding insert_sorted
  sort [] = []
  sort (x ∷ xs) = insert_sorted x (sort xs)

abbrev pub ids {ℓ} : {V : Type ℓ} → Dict V → List String
ids [] = []
ids ((k, v) ∷ m) = k ∷ ids m

-- %s:%s:…
abbrev joined : List String → String
joined [] = ""
joined (x ∷ []) = x
joined (x ∷ y ∷ xs) = x ++ (":" ++ joined (y ∷ xs))

abbrev order_line : OrderSnapshot → String
order_line o =
    "O:"
    ++ (joined (
          o.order_id
          ∷ o.user_id
          ∷ o.symbol
          ∷ o.side
          ∷ print_int o.price
          ∷ print_int o.quantity
          ∷ print_int o.filled_qty
          ∷ o.status
          ∷ [])
        ++ "|")

abbrev trade_line : TradeSnapshot → String
trade_line t =
    "T:"
    ++ (joined (
          t.trade_id
          ∷ t.buyer_id
          ∷ t.seller_id
          ∷ t.symbol
          ∷ print_int t.price
          ∷ print_int t.quantity
          ∷ [])
        ++ "|")

abbrev position_line : PositionSnapshot → String
position_line p =
    "P:"
    ++ (joined (
          p.user_id
          ∷ p.symbol
          ∷ print_int p.quantity_held
          ∷ print_int p.cost_base
          ∷ print_int p.realized_pnl
          ∷ print_int p.unrealized_pnl
          ∷ [])
        ++ "|")

-- The lines of a map, in the order of its keys.
abbrev lines {ℓ} : {V : Type ℓ} → (V → String) → Dict V → List String → String
lines line m [] = ""
lines line m (k ∷ ks) = elim (lookup k m) [
  | none ↦ lines line m ks
  | some v ↦ line v ++ lines line m ks
]

abbrev by_price : ℤ × ℤ → ℤ × ℤ → Bool
by_price a b = leb_ℤ a.0 b.0

abbrev level_lines : String → List (ℤ × ℤ) → String
level_lines tag [] = ""
level_lines tag ((price, quantity) ∷ ls) =
    tag ++ (joined (print_int price ∷ print_int quantity ∷ []) ++ ("|" ++ level_lines tag ls))

abbrev book_lines : Option OrderBookSnapshot → String
book_lines none = ""
book_lines (some b) =
    "B:"
    ++ (joined (
          b.symbol
          ∷ print_int b.last_trade_price
          ∷ print_int b.best_bid
          ∷ print_int b.best_ask
          ∷ [])
        ++ ("|"
            ++ (level_lines "BB:" (sort by_price b.bid_book)
                ++ level_lines "AB:" (sort by_price b.ask_book))))

-- The text that is hashed. It leaves out the times, and of the order book its depths and its spread.
unfoldable pub canonical : StateSnapshot → String
unfolding sort lookup
canonical s =
    lines order_line s.orders (sort leb_str (ids s.orders))
    ++ (lines trade_line s.trades (sort leb_str (ids s.trades))
        ++ (lines position_line s.positions (sort leb_str (ids s.positions))
            ++ (book_lines s.order_book
                ++ ("C:"
                    ++ (joined (
                          print_int s.event_count
                          ∷ print_int s.order_count
                          ∷ print_int s.trade_count
                          ∷ print_int s.position_count
                          ∷ [])
                        ++ "|")))))

-- The snapshot with its checksum set, and the checksum. `hash` is the hexadecimal SHA-256 of a text.
unfoldable pub calculate_checksum : (String → String) → StateSnapshot → StateSnapshot × String
unfolding canonical
calculate_checksum hash s = (record s { checksum = hash (canonical s) }, hash (canonical s))
