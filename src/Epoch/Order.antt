-- ===== src/Epoch/Order.antt =====
-- The check of an order's epoch, biz/handler/order_fencing.go. No handler calls it yet.
use cex_hertz_backend.Base.{
  ℕ, ◌<◌, ℤ, pos, ◌+ℤ◌, ◌≤ℤ◌, ◌<ℤ◌, ltb_ℤ, eq_ℤ, add64, eq_of_parts, String, Bool, true, false, not,
  ◌&&◌, Option, none, some, List, [], ◌∷◌, Dict, insert, ◌≡◌, ◌≢◌, ◌↔◌, ap, refl, arith,
  if◌then◌else◌, Bool-cases, inl, inr,
}
use Prim.Native.String.{◌++◌}
use cex_hertz_backend.Pipeline.Context.{print_int}
use cex_hertz_backend.Recovery.Lock.{Tries, TakenAt}
use cex_hertz_backend.Epoch.Redis.{Values, Redis, Laws}
use cex_hertz_backend.Epoch.Manager.{
  OwnershipEpochInfo, EpochError, Result, ok, err, whole, epoch_ttl, get_epoch, get_ownership_info,
  update_ownership_epoch,
}
use cex_hertz_backend.Epoch.Fencing.{epoch_of, IsOwnedBy, get_epoch_written, eq_ℤ_refl}

pub record OrderProcessingContext : Type 0 where
  pub symbol : String
  pub partition_id : String
  pub current_epoch : ℤ
  pub processing_node_id : String
  pub is_fenced : Bool
  pub error_msg : String

pub data Diagnostic : Type 0 where
  unavailable : EpochError → Diagnostic
  uninitialized : Diagnostic
  owned : OwnershipEpochInfo → Diagnostic

unfoldable pub new_context : String → String → String → OrderProcessingContext
new_context symbol partition node = record {
  symbol = symbol;
  partition_id = partition;
  current_epoch = pos 0;
  processing_node_id = node;
  is_fenced = false;
  error_msg = "";
}

module _ (V : Values) (R : Redis V.Value) (message : EpochError → String) where
  open R use {Store}

  unfoldable pub mismatch : ℤ → ℤ → String
  mismatch cached current =
      "ownership epoch mismatch: expected "
      ++ (print_int cached ++ (", got " ++ (print_int current ++ " (partition may have migrated)")))

  -- The epoch was read, or not.
  unfoldable pub checked :
      OrderProcessingContext → ℤ → Result ℤ → OrderProcessingContext × Option EpochError
  unfolding mismatch
  checked c cached (err e) = (record c { error_msg = "failed to get epoch: " ++ message e }, some e)
  checked c cached (ok current) =
      let c' : OrderProcessingContext = record c { current_epoch = current } in
      if ltb_ℤ (pos 0) cached && not (eq_ℤ cached current)
      then (record c' { is_fenced = true; error_msg = mismatch cached current }, none)
      else (c', none)

  unfoldable pub verify_order_ownership_fencing :
      Bool → ℤ → String → String → ℤ → String → Store → OrderProcessingContext × Option EpochError
  unfolding checked new_context
  verify_order_ownership_fencing answered now symbol partition cached node s =
      checked (new_context symbol partition node) cached (get_epoch V R answered now partition s)

  unfoldable pub order_ownership_interceptor :
      Bool → ℤ → String → String → ℤ → String → Store → OrderProcessingContext × Option EpochError
  order_ownership_interceptor answered now symbol partition cached node s =
      verify_order_ownership_fencing answered now symbol partition cached node s

  unfoldable pub diagnostic : Result (Option OwnershipEpochInfo) → Diagnostic
  diagnostic (err e) = unavailable e
  diagnostic (ok none) = uninitialized
  diagnostic (ok (some info)) = owned info

  -- `answers` tells of each symbol whether Redis answered.
  unfoldable pub get_ownership_diagnostics :
      (String → Bool) → ℤ → List String → Store → Dict Diagnostic → Dict Diagnostic
  get_ownership_diagnostics answers now [] s diagnostics = diagnostics
  get_ownership_diagnostics answers now (symbol ∷ symbols) s diagnostics =
      get_ownership_diagnostics answers now symbols s (
        insert symbol
          (diagnostic (get_ownership_info V R (answers symbol) now ("partition:" ++ symbol) s))
          diagnostics)

  checked_iff :
      (c : OrderProcessingContext) (cached current : ℤ)
      → c.is_fenced ≡ false
      → ((checked c cached (ok current)).1 ≡ none)
        × (((checked c cached (ok current)).0.is_fenced ≡ true)
            ↔ ((pos 0 <ℤ cached) × (cached ≢ current)))
  unfolding checked
  checked_iff c cached current open_ = elim (Bool-cases (ltb_ℤ (pos 0) cached)) [
    | inl up ↦ elim (Bool-cases (eq_ℤ cached current)) [
      | inl same ↦
          rw (up, same)
            (
              refl,
              (λ h. cc (h, open_), λ h. absurd (h.1 (eq_of_parts cached current (ground arith)))),
            )
      | inr new ↦
          rw (up, new)
            (
              refl,
              (λ h. (ground arith, λ e. cc (ap (eq_ℤ cached) e, new, eq_ℤ_refl cached)), λ h. refl),
            )
    ]
    | inr down ↦ rw down (refl, (λ h. cc (h, open_), λ h. absurd (ground arith)))
  ]

  -- Under the lock, with a Redis that answers, an update by another owner fences off, until the key
  -- expires, exactly the orders whose cached epoch is positive and is not the new one. An order with
  -- the cached epoch 0, as of the time before the first owner, goes through.
  pub order_ownership_interceptor-update_ownership_epoch :
      Laws V.Value R
      → (tries : Tries) (round : ℕ) (now later : ℤ) (symbol partition owner node : String)
        (cached : ℤ) (s : Store) (info : Option OwnershipEpochInfo)
      → round < 3
      → TakenAt tries round 0
      → get_ownership_info V R true now partition s ≡ ok info
      → ¬ (IsOwnedBy owner info)
      → now ≤ℤ later
      → later <ℤ now +ℤ epoch_ttl
      → let u = update_ownership_epoch V R tries true whole now partition owner s in
        let r = order_ownership_interceptor true later symbol partition cached node u.store in
        (r.1 ≡ none)
        × ((r.0.is_fenced ≡ true) ↔ ((pos 0 <ℤ cached) × (cached ≢ add64 (epoch_of info) (pos 1))))
  unfolding order_ownership_interceptor verify_order_ownership_fencing
  order_ownership_interceptor-update_ownership_epoch laws tries round now later symbol partition
        owner node cached s info l t known other from to =
      rw
        (get_epoch_written V R laws tries round l t now partition owner s info known other later
          from to)
        (checked_iff (new_context symbol partition node) cached (add64 (epoch_of info) (pos 1))
          refl)
