-- ===== src/Epoch/Manager.antt =====
-- `OwnershipEpochManager` of biz/service/ownership_epoch_manager.go. Of every request to Redis, an
-- argument tells whether it was answered.
use cex_hertz_backend.Base.{
  ℕ, ℤ, pos, add64, eq_ℤ, String, str_eq, Bool, Option, none, some, List, [], ◌∷◌, Dict, lookup,
  take, if◌then◌else◌,
}
use Prim.Native.String.{◌++◌}
use cex_hertz_backend.Pipeline.Context.{EventContext, with_ownership_epoch}
use cex_hertz_backend.Recovery.Lock.{Tries, Outcome, ran, refused, Acquired, with_lock}
use cex_hertz_backend.Epoch.Redis.{Values, Redis, Command, h_set, expire, run_all}

pub record OwnershipEpochInfo : Type 0 where
  pub epoch : ℤ
  pub owner : String
  pub updated_at : ℤ

pub data EpochError : Type 0 where
  unread invalid_value not_updated : EpochError
  lock_refused : Acquired → EpochError

pub data Result {ℓ} (A : Type ℓ) : Type ℓ where
  ok : A → Result A
  err : EpochError → Result A

abbrev pub ownership_key : String → String
ownership_key partition = "partition:" ++ (partition ++ ":ownership")

-- 24 hours
abbrev pub epoch_ttl : ℤ
epoch_ttl = pos 86400

-- How the pipeline of a write fares: all of it, or the first commands and an error.
pub data Exec : Type 0 where
  whole : Exec
  partial : ℕ → Exec

pub data AuditLog : Type 0 where
  uninitialized : AuditLog
  audit : (partition : String) (epoch : ℤ) (owner : String) (updated_at : String) → AuditLog

module _ (V : Values) (R : Redis V.Value) where
  open V use {Value, of_int, of_text, text, scan}
  open R use {Store, h_get, h_get_all}

  unfoldable pub scanned : Option Value → Result ℤ
  scanned none = ok (pos 0)
  scanned (some v) = elim (scan v) [ none ↦ err invalid_value | some epoch ↦ ok epoch ]

  unfoldable pub get_epoch : Bool → ℤ → String → Store → Result ℤ
  unfolding scanned
  get_epoch answered now partition s =
      if answered then scanned (h_get now (ownership_key partition) "epoch" s) else err unread

  -- A field that is missing or is no number reads as 0.
  unfoldable pub number : Option Value → ℤ
  number none = pos 0
  number (some v) = elim (scan v) [ none ↦ pos 0 | some n ↦ n ]

  unfoldable pub owner_text : Option Value → String
  owner_text none = ""
  owner_text (some v) = text v

  unfoldable pub info_of : Dict Value → Option OwnershipEpochInfo
  unfolding number owner_text
  info_of [] = none
  info_of (field ∷ fields) = some (record {
    epoch = number (lookup "epoch" (field ∷ fields));
    owner = owner_text (lookup "owner" (field ∷ fields));
    updated_at = number (lookup "updated_at" (field ∷ fields));
  })

  unfoldable pub get_ownership_info : Bool → ℤ → String → Store → Result (Option OwnershipEpochInfo)
  unfolding info_of
  get_ownership_info answered now partition s =
      if answered then ok (info_of (h_get_all now (ownership_key partition) s)) else err unread

  -- What UpdateOwnershipEpoch leaves and returns.
  pub record Updated : Type 0 where
    pub store : Store
    pub new_epoch : ℤ
    pub failure : Option EpochError

  unfoldable pub update_commands : ℤ → String → ℤ → String → List (Command Value)
  update_commands now partition epoch new_owner =
      h_set (ownership_key partition) "epoch" (of_int epoch)
      ∷ h_set (ownership_key partition) "owner" (of_text new_owner)
      ∷ h_set (ownership_key partition) "updated_at" (of_int now)
      ∷ expire (ownership_key partition) epoch_ttl
      ∷ []

  -- The pipeline, behind which the epoch is `epoch` also on an error.
  unfoldable pub write_epoch : Exec → ℤ → String → ℤ → String → Store → Updated
  unfolding update_commands
  write_epoch whole now partition epoch new_owner s = record {
    store = run_all Value R now (update_commands now partition epoch new_owner) s;
    new_epoch = epoch;
    failure = none;
  }
  write_epoch (partial n) now partition epoch new_owner s = record {
    store = run_all Value R now (take n (update_commands now partition epoch new_owner)) s;
    new_epoch = epoch;
    failure = some not_updated;
  }

  unfoldable pub change_owner :
      Exec → ℤ → String → String → Store → Result (Option OwnershipEpochInfo) → Updated
  unfolding write_epoch
  change_owner exec now partition new_owner s (err e) = record {
    store = s;
    new_epoch = pos 0;
    failure = some e;
  }
  change_owner exec now partition new_owner s (ok none) =
      write_epoch exec now partition (add64 (pos 0) (pos 1)) new_owner s
  change_owner exec now partition new_owner s (ok (some info)) =
      if str_eq info.owner new_owner
      then record { store = s; new_epoch = info.epoch; failure = none }
      else write_epoch exec now partition (add64 info.epoch (pos 1)) new_owner s

  unfoldable pub outcome : Store → Outcome Updated → Updated
  outcome s (ran u) = u
  outcome s (refused why) = record {
    store = s;
    new_epoch = pos 0;
    failure = some (lock_refused why);
  }

  -- The lock's own options allow three rounds.
  unfoldable pub update_ownership_epoch :
      Tries → Bool → Exec → ℤ → String → String → Store → Updated
  unfolding outcome change_owner
  update_ownership_epoch tries answered exec now partition new_owner s = outcome s (
      with_lock tries 3
        (change_owner exec now partition new_owner s (get_ownership_info answered now partition s)))

  unfoldable pub verify_ownership_fencing : Bool → ℤ → String → ℤ → Store → Result (Bool × ℤ)
  verify_ownership_fencing answered now partition event_epoch s =
      elim (get_epoch answered now partition s) [
        | err e ↦ err e
        | ok current ↦ ok (eq_ℤ current event_epoch, current)
      ]

  unfoldable pub fill_event_context_with_epoch :
      Bool → ℤ → EventContext → String → String → Store → Result EventContext
  fill_event_context_with_epoch answered now context partition node s =
      elim (get_epoch answered now partition s) [
        | err e ↦ err e
        | ok epoch ↦ ok (with_ownership_epoch context epoch node)
      ]

  unfoldable pub audit_of : (ℤ → String) → String → Option OwnershipEpochInfo → AuditLog
  audit_of format partition none = uninitialized
  audit_of format partition (some info) =
      audit partition info.epoch info.owner (format info.updated_at)

  -- `format` writes a time by RFC 3339.
  unfoldable pub get_ownership_audit_log :
      (ℤ → String) → Bool → ℤ → String → Store → Result AuditLog
  unfolding audit_of
  get_ownership_audit_log format answered now partition s =
      elim (get_ownership_info answered now partition s) [
        | err e ↦ err e
        | ok info ↦ ok (audit_of format partition info)
      ]
