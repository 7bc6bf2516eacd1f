-- ===== src/Protocol/Handover.antt =====
-- A whole hand-over by the messages of biz/model/transfer_protocol.go, from Owned to Standby.
use cex_hertz_backend.Base.{
  ℤ, ◌≤ℤ◌, String, str_eq_iff, true, some, List, [], ◌∷◌, ◌≡◌, ◌≢◌, arith, sub64, refl,
}
use cex_hertz_backend.Ownership.Types.{
  OwnershipState, owned, migration_pending, frozen, flushing, transferring, standby,
  OwnershipStateMachine, Clock, TransferCoordinator, value, whole_seconds,
}
use cex_hertz_backend.Ownership.Machine.{
  transition, start_migration, freeze, flush, transfer, commit,
}
use cex_hertz_backend.Protocol.Messages.{TransferRequest, FreezeSignal, TransferSignal}
use cex_hertz_backend.Protocol.Handler.{
  start_transfer, apply_freeze_signal, complete_flushing, apply_transfer_signal, commit_transfer,
}
use cex_hertz_backend.Protocol.Order.{
  Message, start, freezing, flushed, handing_over, committing, handle, machine_or,
}

-- The machine after messages that may be refused.
unfoldable pub exchange : List (Clock × ℤ × Message) → OwnershipStateMachine → OwnershipStateMachine
exchange [] f = f
exchange ((c, now, m) ∷ ms) f = exchange ms (machine_or f (handle c now (some f) m).1)

-- What stays the same on the way: the owner, the target, the coordinator, and a checkpoint that
-- is no later than the last event processed.
record OnTheWay (s : OwnershipState) (owner target : String) (k : TransferCoordinator)
    (f : OwnershipStateMachine) : Type 0 where
  in_state : f.metadata.state ≡ s
  has_owner : f.metadata.current_owner ≡ owner
  has_target : f.metadata.target_owner ≡ target
  coordinator : f.transfer_coordinator ≡ some k
  checkpointed : f.metadata.checkpoint_seq ≤ℤ f.metadata.last_processed_seq

abbrev next : Clock → ℤ → OwnershipStateMachine → Message → OwnershipStateMachine
next c now f m = machine_or f (handle c now (some f) m).1

module _ (c : Clock) (now : ℤ) (f : OwnershipStateMachine) where
  next-start :
      (owner : String) (k : TransferCoordinator) (req : TransferRequest)
      → OnTheWay owned owner f.metadata.target_owner k f
      → req.target_owner ≢ ""
      → req.target_owner ≢ owner
      → OnTheWay migration_pending owner req.target_owner k (next c now f (start req))
        × ((next c now f (start req)).metadata.migration_start_time ≡ c.action_time)
        × ((next c now f (start req)).migration_timeout ≡ f.migration_timeout)
  unfolding handle start_transfer start_migration transition
  next-start owner k req w h d =
      ground (arith, str_eq_iff req.target_owner "", str_eq_iff req.target_owner owner)

  next-freezing :
      (owner target : String) (k : TransferCoordinator) (sig : FreezeSignal)
      → OnTheWay migration_pending owner target k f
      → sub64 c.guard_time f.metadata.migration_start_time ≤ℤ whole_seconds f.migration_timeout
      → OnTheWay frozen owner target k (next c now f (freezing sig))
  unfolding handle apply_freeze_signal freeze transition
  next-freezing owner target k sig w h = ground arith

  next-flushed :
      (owner target : String) (k : TransferCoordinator) (by : String)
      → OnTheWay frozen owner target k f
      → OnTheWay flushing owner target k (next c now f (flushed by))
  unfolding handle complete_flushing flush transition
  next-flushed owner target k by w = ground arith

  next-handing_over :
      (owner target id : String) (k : TransferCoordinator) (sig : TransferSignal)
      → OnTheWay flushing owner target k f
      → k.initiate_transfer c.moment f.metadata.partition_id f.metadata.current_owner
          f.metadata.target_owner f.metadata.checkpoint_seq
        ≡ value id
      → OnTheWay transferring owner target k (next c now f (handing_over sig))
        × ((next c now f (handing_over sig)).metadata.transfer_id ≡ id)
  unfolding handle apply_transfer_signal transfer transition
  next-handing_over owner target id k sig w h = ground arith

  next-committing :
      (owner target id : String) (k : TransferCoordinator) (by : String)
      → OnTheWay transferring owner target k f
      → f.metadata.transfer_id ≡ id
      → id ≢ ""
      → k.is_target_ready c.moment id ≡ value true
      → let g = next c now f (committing by) in
        (g.metadata.state ≡ standby)
        × (g.metadata.current_owner ≡ target)
        × (g.metadata.previous_owner ≡ owner)
        × (g.metadata.target_owner ≡ "")
  unfolding handle commit_transfer commit transition
  next-committing owner target id k by w i h r = ground (arith, str_eq_iff id "")

-- From Owned, the five messages of the protocol end in Standby with the target of the request as the
-- owner and the old owner as the previous one, if the target is named and another node, the freeze
-- comes within the migration's time, the checkpoint is no later than the last event processed, and
-- the coordinator, when it is asked, makes a record and finds its target ready.
pub handover :
    (f : OwnershipStateMachine) (k : TransferCoordinator) (id : String) (c₁ c₂ c₃ c₄ c₅ : Clock)
    (t₁ t₂ t₃ t₄ t₅ : ℤ) (req : TransferRequest) (fsig : FreezeSignal) (source : String)
    (tsig : TransferSignal) (by : String)
    → f.metadata.state ≡ owned
    → f.transfer_coordinator ≡ some k
    → req.target_owner ≢ ""
    → req.target_owner ≢ f.metadata.current_owner
    → sub64 c₂.guard_time c₁.action_time ≤ℤ whole_seconds f.migration_timeout
    → f.metadata.checkpoint_seq ≤ℤ f.metadata.last_processed_seq
    → ((p s t : String) (q : ℤ) → k.initiate_transfer c₄.moment p s t q ≡ value id)
    → id ≢ ""
    → k.is_target_ready c₅.moment id ≡ value true
    → let g =
        exchange
          ((c₁, t₁, start req)
            ∷ (c₂, t₂, freezing fsig)
            ∷ (c₃, t₃, flushed source)
            ∷ (c₄, t₄, handing_over tsig)
            ∷ (c₅, t₅, committing by)
            ∷ [])
          f in
      (g.metadata.state ≡ standby)
      × (g.metadata.current_owner ≡ req.target_owner)
      × (g.metadata.previous_owner ≡ f.metadata.current_owner)
      × (g.metadata.target_owner ≡ "")
unfolding exchange
handover f k id c₁ c₂ c₃ c₄ c₅ t₁ t₂ t₃ t₄ t₅ req fsig source tsig by h hk named other soon ch init
      ne ready =
    let g₁ = next c₁ t₁ f (start req) in
    let g₂ = next c₂ t₂ g₁ (freezing fsig) in
    let g₃ = next c₃ t₃ g₂ (flushed source) in
    let g₄ = next c₄ t₄ g₃ (handing_over tsig) in
    let o = f.metadata.current_owner in
    let a₁ =
      next-start c₁ t₁ f o k req
        (record {
          in_state = h;
          has_owner = refl;
          has_target = refl;
          coordinator = hk;
          checkpointed = ch;
        })
        named other in
    let a₂ = next-freezing c₂ t₂ g₁ o req.target_owner k fsig a₁.0 (rw (a₁.1, a₁.2) soon) in
    let a₃ = next-flushed c₃ t₃ g₂ o req.target_owner k source a₂ in
    let a₄ = next-handing_over c₄ t₄ g₃ o req.target_owner id k tsig a₃ (init _ _ _ _) in
    next-committing c₅ t₅ g₄ o req.target_owner id k by a₄.0 a₄.1 ne ready
