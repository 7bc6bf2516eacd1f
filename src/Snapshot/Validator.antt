-- ===== src/Snapshot/Validator.antt =====
-- `StateValidator` of biz/service/state_validator.go. `A` is what an `interface{}` holds, with nil as
-- `none`, and `show` is the text of `%v`.
use Prim.Native.String.{◌++◌}
use cex_hertz_backend.Base.{
  ℕ, ℤ, pos, String, str_eq, str_eq_iff, Bool, true, false, ◌&&◌, Option, none, some, ◌≡◌, ◌↔◌,
  refl, arith, eq_ℤ, eq_of_parts, sub64, decimal, if◌then◌else◌,
}
use cex_hertz_backend.Pipeline.Context.{print_int}

module _ (A : Type 0) where
  pub record RecoveryCheckpoint : Type 0 where
    pub timestamp : ℤ
    pub last_event_seq : ℕ
    pub order_count : ℤ
    pub trade_count : ℤ
    pub order_book : Option A
    pub positions : Option A
    pub state_checksum : String
    pub bid_levels : ℤ
    pub ask_levels : ℤ
    pub total_bid_qty : ℤ
    pub total_ask_qty : ℤ

  pub record StateValidator : Type 0 where
    pub last_pre_checkpoint : Option RecoveryCheckpoint
    pub last_post_checkpoint : Option RecoveryCheckpoint

-- The map of the positions' differences has one key, "positions".
pub record ValidationResult : Type 0 where
  pub is_valid : Bool
  pub checksum_match : Bool
  pub order_count_ok : Bool
  pub trade_count_ok : Bool
  pub positions_ok : Bool
  pub checksum_mismatch : String
  pub order_count_difference : ℤ
  pub trade_count_difference : ℤ
  pub position_diffs : Option String
  pub pre_state : String
  pub post_state : String

abbrev differ : String → String → String
differ a b = "pre=" ++ (a ++ (", post=" ++ b))

-- A nil checkpoint is not valid.
abbrev missing : String → String → ValidationResult
missing a b = record {
  is_valid = false;
  checksum_match = false;
  order_count_ok = false;
  trade_count_ok = false;
  positions_ok = false;
  checksum_mismatch = "";
  order_count_difference = pos 0;
  trade_count_difference = pos 0;
  position_diffs = none;
  pre_state = a;
  post_state = b;
}

eq_ℤ_iff : (a b : ℤ) → (eq_ℤ a b ≡ true) ↔ (a ≡ b)
eq_ℤ_iff a b = (λ h. eq_of_parts a b (ground arith), λ h. rw (h) (ground arith))

and_true : (a b : Bool) → (a && b) ≡ true → (a ≡ true) × (b ≡ true)
and_true true b h = (refl, h)
and_true false b h = absurd (ground arith)

true_and : {a b : Bool} → a ≡ true → b ≡ true → (a && b) ≡ true
true_and h k = rw (h) k

module _ {A : Type 0} where
  unfoldable pub new_state_validator : StateValidator A
  new_state_validator = record { last_pre_checkpoint = none; last_post_checkpoint = none }

  -- `hash` is the hexadecimal MD5 of a text.
  unfoldable pub calculate_state_text :
      (String → String) → (Option A → String) → Option A → Option A → String
  calculate_state_text hash show book positions =
      hash ("orderbook:" ++ (show book ++ ("|positions:" ++ show positions)))

  -- The order book and the positions of the engine; `none` is a nil engine.
  unfoldable pub capture_current_state :
      (String → String)
      → (Option A → String)
      → Option (Option A × Option A)
      → Option (RecoveryCheckpoint A)
  capture_current_state hash show none = none
  capture_current_state hash show (some (book, positions)) = some (record {
    timestamp = pos 0;
    last_event_seq = 0;
    order_count = pos 0;
    trade_count = pos 0;
    order_book = book;
    positions = positions;
    state_checksum = calculate_state_text hash show book positions;
    bid_levels = pos 0;
    ask_levels = pos 0;
    total_bid_qty = pos 0;
    total_ask_qty = pos 0;
  })

  -- Whether the positions are the same, and their difference.
  unfoldable pub validate_positions :
      (Option A → String) → Option A → Option A → Bool × Option String
  validate_positions show a b =
      if str_eq (show a) (show b) then (true, none) else (false, some (differ (show a) (show b)))

  abbrev pub compared_positions : (Option A → String) → Option A → Option A → Bool × Option String
  compared_positions show none b = (true, none)
  compared_positions show (some a) none = (true, none)
  compared_positions show (some a) (some b) = validate_positions show (some a) (some b)

  abbrev state_line : RecoveryCheckpoint A → String
  state_line c =
      "seq="
      ++ (decimal c.last_event_seq
          ++ (", orders="
              ++ (print_int c.order_count
                  ++ (", trades="
                      ++ (print_int c.trade_count ++ (", checksum=" ++ c.state_checksum))))))

  abbrev pub both_given :
      (Option A → String) → RecoveryCheckpoint A → RecoveryCheckpoint A → ValidationResult
  both_given show pre post =
      let same = str_eq pre.state_checksum post.state_checksum in
      let orders = eq_ℤ pre.order_count post.order_count in
      let trades = eq_ℤ pre.trade_count post.trade_count in
      let held = compared_positions show pre.positions post.positions in
      record {
        is_valid = same && orders && trades && held.0;
        checksum_match = same;
        order_count_ok = orders;
        trade_count_ok = trades;
        positions_ok = held.0;
        checksum_mismatch = if same then "" else differ pre.state_checksum post.state_checksum;
        order_count_difference = if orders then pos 0 else sub64 post.order_count pre.order_count;
        trade_count_difference = if trades then pos 0 else sub64 post.trade_count pre.trade_count;
        position_diffs = held.1;
        pre_state = state_line pre;
        post_state = state_line post;
      }

  -- `shown` is the text of a checkpoint that may be nil.
  abbrev judged :
      (Option A → String)
      → (Option (RecoveryCheckpoint A) → String)
      → StateValidator A
      → Option (RecoveryCheckpoint A)
      → Option (RecoveryCheckpoint A)
      → StateValidator A × ValidationResult
  judged show shown sv none post = (sv, missing (shown none) (shown post))
  judged show shown sv (some a) none = (sv, missing (shown (some a)) (shown none))
  judged show shown sv (some a) (some b) =
      (record { last_pre_checkpoint = some a; last_post_checkpoint = some b }, both_given show a b)

  unfoldable pub validate_recovery_state :
      (Option A → String)
      → (Option (RecoveryCheckpoint A) → String)
      → StateValidator A
      → Option (RecoveryCheckpoint A)
      → Option (RecoveryCheckpoint A)
      → StateValidator A × ValidationResult
  unfolding validate_positions
  validate_recovery_state show shown sv pre post = judged show shown sv pre post

  -- Whether the texts are the same, and what is said of a difference.
  unfoldable pub compare_shown_books : (Option A → String) → Option A → Option A → Bool × String
  compare_shown_books show a b =
      if str_eq (show a) (show b)
      then (true, "")
      else (false, "OrderBook differs: " ++ differ (show a) (show b))

  unfoldable pub get_last_validation_result :
      StateValidator A → Option (RecoveryCheckpoint A) × Option (RecoveryCheckpoint A)
  get_last_validation_result sv = (sv.last_pre_checkpoint, sv.last_post_checkpoint)

  unfoldable pub reset_validation_state : StateValidator A → StateValidator A
  reset_validation_state sv = record { last_pre_checkpoint = none; last_post_checkpoint = none }

  -- The positions agree when one of them is nil or their texts are the same.
  abbrev pub PositionsAgree : (Option A → String) → Option A → Option A → Type 0
  PositionsAgree show none b = Unit
  PositionsAgree show (some a) none = Unit
  PositionsAgree show (some a) (some b) = show (some a) ≡ show (some b)

  positions_agree :
      (show : Option A → String) (a b : Option A)
      → ((compared_positions show a b).0 ≡ true) ↔ PositionsAgree show a b
  unfolding validate_positions
  positions_agree show none b = (λ h. tt, λ h. refl)
  positions_agree show (some a) none = (λ h. tt, λ h. refl)
  positions_agree show (some a) (some b) =
      ground (arith, str_eq_iff (show (some a)) (show (some b)))

  -- Of two checkpoints, a recovery is valid exactly when the checksums and the counts of orders and of
  -- trades are the same and the positions agree; and both are kept as the last ones. With a missing
  -- checkpoint it is not valid, and the last ones stay.
  pub validate_recovery_state_iff :
      (show : Option A → String) (shown : Option (RecoveryCheckpoint A) → String)
      (sv : StateValidator A) (a b : RecoveryCheckpoint A) (c : Option (RecoveryCheckpoint A))
      → (((validate_recovery_state show shown sv (some a) (some b)).1.is_valid ≡ true) ↔ (
          (a.state_checksum ≡ b.state_checksum)
          × (a.order_count ≡ b.order_count)
          × (a.trade_count ≡ b.trade_count)
          × PositionsAgree show a.positions b.positions))
        × (get_last_validation_result (validate_recovery_state show shown sv (some a) (some b)).0
            ≡ (some a, some b))
        × ((validate_recovery_state show shown sv none c).1.is_valid ≡ false)
        × ((validate_recovery_state show shown sv c none).1.is_valid ≡ false)
        × ((validate_recovery_state show shown sv none c).0 ≡ sv)
        × ((validate_recovery_state show shown sv c none).0 ≡ sv)
  unfolding validate_recovery_state validate_positions get_last_validation_result
  validate_recovery_state_iff show shown sv a b c =
      let s = str_eq_iff a.state_checksum b.state_checksum in
      let o = eq_ℤ_iff a.order_count b.order_count in
      let t = eq_ℤ_iff a.trade_count b.trade_count in
      let p = positions_agree show a.positions b.positions in
      (
        (
          λ h.
              let h' = and_true _ _ h in
              let i' = and_true _ _ h'.0 in
              let j' = and_true _ _ i'.0 in (s.0 j'.0, o.0 j'.1, t.0 i'.1, p.0 h'.1),
          λ h. true_and (true_and (true_and (s.1 h.0) (o.1 h.1)) (t.1 h.2)) (p.1 h.3),
        ),
        refl,
        refused c,
        refused' c,
        kept c,
        kept' c,
      )
    where
      refused :
          (c : Option (RecoveryCheckpoint A)) → (judged show shown sv none c).1.is_valid ≡ false
      refused none = refl
      refused (some x) = refl

      refused' :
          (c : Option (RecoveryCheckpoint A)) → (judged show shown sv c none).1.is_valid ≡ false
      refused' none = refl
      refused' (some x) = refl

      kept : (c : Option (RecoveryCheckpoint A)) → (judged show shown sv none c).0 ≡ sv
      kept none = refl
      kept (some x) = refl

      kept' : (c : Option (RecoveryCheckpoint A)) → (judged show shown sv c none).0 ≡ sv
      kept' none = refl
      kept' (some x) = refl
