-- ===== src/Epoch/Fencing.antt =====
-- What an update of the owner does to the fence, until the key expires and behind that.
use cex_hertz_backend.Base.{
  ℕ, ◌<◌, ℤ, pos, negsuc, ◌+ℤ◌, ◌≤ℤ◌, ◌<ℤ◌, add64, wrap, eq_ℤ, String, str_eq, str_eq_iff, true,
  false, Option, none, some, ◌≡◌, ◌≢◌, refl, ap, ◌∙◌, arith, Bool-cases, inl, inr,
}
use cex_hertz_backend.Recovery.Lock.{Tries, TakenAt, with_lock_iff}
use cex_hertz_backend.Epoch.Redis.{Values, Redis, Laws, run_all}
use cex_hertz_backend.Epoch.Manager.{
  OwnershipEpochInfo, ok, whole, ownership_key, epoch_ttl, Updated, get_epoch, get_ownership_info,
  update_commands, update_ownership_epoch, verify_ownership_fencing, scanned, info_of, outcome,
  change_owner, write_epoch,
}

-- The epoch of a partition that has no owner in Redis is 0.
abbrev pub epoch_of : Option OwnershipEpochInfo → ℤ
epoch_of none = pos 0
epoch_of (some info) = info.epoch

abbrev pub IsOwnedBy : String → Option OwnershipEpochInfo → Type 0
IsOwnedBy owner none = ⊥
IsOwnedBy owner (some info) = info.owner ≡ owner

next_epoch_differs : (a : ℤ) → eq_ℤ (add64 a (pos 1)) a ≡ false
unfolding add64 wrap ◌+ℤ◌
next_epoch_differs (pos n) = ground arith
next_epoch_differs (negsuc n) = ground arith

differ : (a b : String) → str_eq a b ≡ false → a ≢ b
differ a b h e = cc (h, (str_eq_iff a b).1 e)

pub eq_ℤ_refl : (a : ℤ) → eq_ℤ a a ≡ true
eq_ℤ_refl a = ground arith

module _ (V : Values) (R : Redis V.Value) (laws : Laws V.Value R) where
  open V use {Value, of_int, of_text}
  open R use {Store, h_get, h_get_all}

  written_epoch :
      (now later : ℤ) (partition : String) (epoch : ℤ) (owner : String) (s : Store)
      → now ≤ℤ later
      → later <ℤ now +ℤ epoch_ttl
      → h_get later
          (ownership_key partition)
          "epoch"
          (run_all Value R now (update_commands V R now partition epoch owner) s)
        ≡ some (of_int epoch)
  unfolding update_commands run_all
  written_epoch now later partition epoch owner s from to =
      let k = ownership_key partition in
      laws.get-expire now later k "epoch" epoch_ttl _ from to
      ∙ laws.get-set_other now k "epoch" "updated_at" _ _ (differ "updated_at" "epoch" refl)
      ∙ laws.get-set_other now k "epoch" "owner" _ _ (differ "owner" "epoch" refl)
      ∙ laws.get-set now k "epoch" _ _

  scanned-of_int : (n : ℤ) → scanned V R (some (of_int n)) ≡ ok n
  unfolding scanned
  scanned-of_int n = rw (V.scan-of_int n, scanned) refl

  verified :
      (later : ℤ) (partition : String) (event_epoch current : ℤ) (s : Store)
      → get_epoch V R true later partition s ≡ ok current
      → verify_ownership_fencing V R true later partition event_epoch s
        ≡ ok (eq_ℤ current event_epoch, current)
  unfolding verify_ownership_fencing
  verified later partition event_epoch current s h = rw (h, verify_ownership_fencing) refl

  -- The lock was taken, Redis answered, and the owner is another one.
  module _ (tries : Tries) (round : ℕ) (in_time : round < 3) (locked : TakenAt tries round 0)
      (now : ℤ) (partition owner : String) (s : Store) (info : Option OwnershipEpochInfo)
      (known : get_ownership_info V R true now partition s ≡ ok info)
      (other : ¬ (IsOwnedBy owner info)) where
    abbrev pub written : Updated V R
    written = update_ownership_epoch V R tries true whole now partition owner s

    written_lem :
        written ≡ write_epoch V R whole now partition (add64 (epoch_of info) (pos 1)) owner s
    unfolding update_ownership_epoch outcome change_owner
    written_lem =
        rw ((with_lock_iff tries 3 _ (omega arith)).1 (round, in_time, locked), known)
          (changes info other)
      where
        changes :
            (info : Option OwnershipEpochInfo)
            → ¬ (IsOwnedBy owner info)
            → change_owner V R whole now partition owner s (ok info)
              ≡ write_epoch V R whole now partition (add64 (epoch_of info) (pos 1)) owner s
        changes none o = refl
        changes (some i) o = elim (Bool-cases (str_eq i.owner owner)) [
          | inl same ↦ absurd (o ((str_eq_iff i.owner owner).0 same))
          | inr new ↦ rw new refl
        ]

    pub get_epoch_written :
        (later : ℤ)
        → now ≤ℤ later
        → later <ℤ now +ℤ epoch_ttl
        → get_epoch V R true later partition written.store ≡ ok (add64 (epoch_of info) (pos 1))
    unfolding get_epoch scanned write_epoch
    get_epoch_written later from to =
        let next = add64 (epoch_of info) (pos 1) in
        rw written_lem (
          ap (scanned V R) (written_epoch now later partition next owner s from to)
          ∙ scanned-of_int next)

    -- Under the lock, with a Redis that answers and another owner in it or none, an update raises
    -- the epoch by one. Until the key expires, 24 hours later, an event with the epoch from before is
    -- then refused by the fence, and one with the new epoch passes it.
    pub verify_ownership_fencing-update_ownership_epoch :
        (later : ℤ)
        → now ≤ℤ later
        → later <ℤ now +ℤ epoch_ttl
        → let u = update_ownership_epoch V R tries true whole now partition owner s in
          (u.failure ≡ none)
          × (u.new_epoch ≡ add64 (epoch_of info) (pos 1))
          × (verify_ownership_fencing V R true later partition (epoch_of info) u.store
              ≡ ok (false, u.new_epoch))
          × (verify_ownership_fencing V R true later partition u.new_epoch u.store
              ≡ ok (true, u.new_epoch))
    verify_ownership_fencing-update_ownership_epoch later from to =
        let read = get_epoch_written later from to in
        let new : written.new_epoch ≡ add64 (epoch_of info) (pos 1) =
          unfold write_epoch in rw written_lem refl in
        (
          unfold write_epoch in rw written_lem refl,
          new,
          rw new (
              verified later partition (epoch_of info) _ written.store read
              ∙ ap (λ b. ok (b, add64 (epoch_of info) (pos 1)))
                  (next_epoch_differs (epoch_of info))),
          rw new (
              verified later partition (add64 (epoch_of info) (pos 1)) _ written.store read
              ∙ ap (λ b. ok (b, add64 (epoch_of info) (pos 1)))
                  (eq_ℤ_refl (add64 (epoch_of info) (pos 1)))),
        )

    pub expired :
        (later : ℤ)
        → now +ℤ epoch_ttl ≤ℤ later
        → get_ownership_info V R true later partition
            (update_ownership_epoch V R tries true whole now partition owner s).store
          ≡ ok none
    unfolding write_epoch get_ownership_info update_commands run_all
    expired later past =
        rw
          (
            written_lem,
            laws.all_expired now later (ownership_key partition) epoch_ttl _ past,
            info_of,
          )
          refl
