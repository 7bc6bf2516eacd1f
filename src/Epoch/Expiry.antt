-- ===== src/Epoch/Expiry.antt =====
-- The key of a partition's owner expires 24 hours behind its last change, and the epochs start again.
use cex_hertz_backend.Base.{
  ℤ, pos, ◌+ℤ◌, ◌≤ℤ◌, wrap, add64, String, true, Option, none, ◌≡◌, ◌∙◌, refl, int_laws,
}
use cex_hertz_backend.Recovery.Lock.{Tries, TakenAt}
use cex_hertz_backend.Epoch.Redis.{Values, Redis, Laws}
use cex_hertz_backend.Epoch.Manager.{
  OwnershipEpochInfo, ok, whole, epoch_ttl, get_ownership_info, update_ownership_epoch,
  verify_ownership_fencing,
}
use cex_hertz_backend.Epoch.Fencing.{
  IsOwnedBy, expired, verify_ownership_fencing-update_ownership_epoch,
}

one : add64 (pos 0) (pos 1) ≡ pos 1
unfolding add64 wrap ◌+ℤ◌
one = refl

-- When the owner has not changed for 24 hours, its epoch is lost, whatever it was: the next update
-- gives epoch 1, and an event with epoch 1 passes the fence, though the owner is a later one.
pub update_ownership_epoch_restarts :
    (V : Values) (R : Redis V.Value) (laws : Laws V.Value R) (tries tries' : Tries) (now later : ℤ)
    (partition owner owner' : String) (s : R.Store) (info : Option OwnershipEpochInfo)
    → TakenAt tries 0 0
    → TakenAt tries' 0 0
    → get_ownership_info V R true now partition s ≡ ok info
    → ¬ (IsOwnedBy owner info)
    → now +ℤ epoch_ttl ≤ℤ later
    → let u = update_ownership_epoch V R tries true whole now partition owner s in
      let u' = update_ownership_epoch V R tries' true whole later partition owner' u.store in
      (u'.new_epoch ≡ pos 1)
      × (verify_ownership_fencing V R true later partition (pos 1) u'.store ≡ ok (true, pos 1))
update_ownership_epoch_restarts V R laws tries tries' now later partition owner owner' s info l l'
      known other past =
    let gone =
      expired V R laws tries 0 (omega int_laws) l now partition owner s info known other later
        past in
    let again =
      verify_ownership_fencing-update_ownership_epoch V R laws tries' 0 (omega int_laws) l' later
        partition owner' _ none gone (λ x. x) later (omega int_laws) (omega int_laws) in
    let new = again.1 ∙ one in (new, rw new at again.3)
