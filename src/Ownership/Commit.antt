-- ===== src/Ownership/Commit.antt =====
-- The state machine of biz/model/partition_ownership.go with the coordinator of
-- biz/service/db_transfer_coordinator.go: a commit asks the table of transfers.
use cex_hertz_backend.Base.{
  ℕ, ℤ, String, true, false, Option, none, some, ◌≡◌, ◌≢◌, ◌↔◌, ap, sym, ◌∙◌, arith, str_eq_iff,
}
use cex_hertz_backend.Ownership.Types.{
  transferring, OwnershipStateMachine, Clock, Answer, value, error, TransferCoordinator,
}
use cex_hertz_backend.Ownership.Machine.{transition, commit}
use cex_hertz_backend.Ownership.Coordinator.{
  TransferTable, Numerals, initiate_transfer, mark_transfer_completed, is_target_ready,
  is_target_ready-initiate_transfer, is_target_ready-mark_transfer_completed,
}

-- An answer of the table, with the text of its error.
abbrev answer : {A : Type 0} → String → Option A → Answer A
answer text none = error text
answer text (some a) = value a

module _ (D : TransferTable) (N : Numerals) (text : String) where
  open D use {Table}

  -- The coordinator over a table that stands as `at m` at the moment m.
  abbrev pub db_transfer_coordinator : (ℕ → Table) → TransferCoordinator
  db_transfer_coordinator at = record {
    initiate_transfer = λ m p s t q. answer text (initiate_transfer D N p s t q (at m)).1;
    is_target_ready = λ m id. answer text (is_target_ready D N id (at m));
  }

  -- In Transferring a machine with the number of a record commits exactly when the table has that
  -- record as completed at that moment.
  commit_iff :
      (at : ℕ → Table) (c : Clock) (f : OwnershipStateMachine) (who : String)
      → f.metadata.state ≡ transferring
      → f.transfer_coordinator ≡ some (db_transfer_coordinator at)
      → f.metadata.transfer_id ≢ ""
      → ((commit c f who).failure ≡ none)
        ↔ (is_target_ready D N f.metadata.transfer_id (at c.moment) ≡ some true)
  unfolding commit transition
  commit_iff at c f who h k ne = ground (arith, str_eq_iff f.metadata.transfer_id "")

  commit_owner :
      (c : Clock) (f : OwnershipStateMachine) (who : String)
      → f.metadata.state ≡ transferring
      → (commit c f who).failure ≡ none
      → (commit c f who).machine.metadata.current_owner ≡ f.metadata.target_owner
  unfolding commit transition
  commit_owner c f who h ok = ground arith

  -- Take a machine in Transferring with the database's coordinator and the number of a record that a
  -- call of InitiateTransfer has made. At a moment at which the table is as that call left it, a commit
  -- is refused; at one at which the table is as a saved MarkTransferCompleted of this record leaves it,
  -- the commit succeeds and the target is the owner.
  pub commit-mark_transfer_completed :
      (at : ℕ → Table) (c d : Clock) (f : OwnershipStateMachine) (partition from to who : String)
      (seq : ℤ) (t : Table)
      → let id = f.metadata.transfer_id in
        let made = initiate_transfer D N partition from to seq t in
        f.metadata.state ≡ transferring
        → f.transfer_coordinator ≡ some (db_transfer_coordinator at)
        → id ≢ ""
        → made.1 ≡ some id
        → at c.moment ≡ made.0
        → (mark_transfer_completed D N id made.0).1 ≡ true
        → at d.moment ≡ (mark_transfer_completed D N id made.0).0
        → ((commit c f who).failure ≢ none)
          × ((commit d f who).failure ≡ none)
          × ((commit d f who).machine.metadata.current_owner ≡ f.metadata.target_owner)
  commit-mark_transfer_completed at c d f partition from to who seq t h k ne new before saved
        after =
      let id = f.metadata.transfer_id in
      let made = initiate_transfer D N partition from to seq t in
      let waits : is_target_ready D N id (at c.moment) ≡ some false =
        ap (is_target_ready D N id) before
        ∙ is_target_ready-initiate_transfer D N partition from to seq t id new in
      let ready : is_target_ready D N id (at d.moment) ≡ some true =
        ap (is_target_ready D N id) after
        ∙ (is_target_ready-mark_transfer_completed D N id id made.0 saved).0 in
      let done = (commit_iff at d f who h k ne).1 ready in
      (
        λ ok.
            let done_early = (commit_iff at c f who h k ne).0 ok in
            let clash : some false ≡ some true = sym waits ∙ done_early in cc,
        done,
        commit_owner d f who h done,
      )
