-- ===== src/Ownership/Coordinator.antt =====
-- `DBTransferCoordinator` of biz/service/db_transfer_coordinator.go over the rows of
-- biz/model/transfer_coordinator.go. The table and fmt's %d are parameters with their laws; a row is
-- modelled without the two times that the database keeps.
use cex_hertz_backend.Base.{
  ℕ, ℤ, pos, String, Bool, true, false, Option, none, some, ◌≡◌, ◌≢◌, refl, ap, ◌∙◌,
}

pub data TransferStatus : Type 0 where
  pending in_progress completed failed : TransferStatus

pub record OwnershipTransfer : Type 0 where
  pub id : ℕ
  pub partition_id : String
  pub from_owner : String
  pub to_owner : String
  pub checkpoint_seq : ℤ
  pub status : TransferStatus
  pub attempts : ℤ
  pub last_error : String

-- `create` gives the row its id, or an error and no row.
pub record TransferTable : Type 1 where
  pub Table : Type 0
  pub create : OwnershipTransfer → Table → Table × Option ℕ
  pub first : ℕ → Table → Option OwnershipTransfer
  pub save : OwnershipTransfer → Table → Table × Bool
  pub first-create :
      (tr : OwnershipTransfer) (t : Table) (n : ℕ)
      → (create tr t).1 ≡ some n
      → (first n t ≡ none) × (first n (create tr t).0 ≡ some (record tr { id = n }))
  pub first-create_other :
      (tr : OwnershipTransfer) (t : Table) (n k : ℕ)
      → (create tr t).1 ≡ some n
      → k ≢ n
      → first k (create tr t).0 ≡ first k t
  pub first_id : (t : Table) (n : ℕ) (tr : OwnershipTransfer) → first n t ≡ some tr → tr.id ≡ n
  pub first-save :
      (tr : OwnershipTransfer) (t : Table)
      → (save tr t).1 ≡ true
      → first tr.id (save tr t).0 ≡ some tr
  pub first-save_other :
      (tr : OwnershipTransfer) (t : Table) (k : ℕ) → k ≢ tr.id → first k (save tr t).0 ≡ first k t

pub record Numerals : Type 0 where
  pub print : ℕ → String
  pub scan : String → Option ℕ
  pub scan-print : (n : ℕ) → scan (print n) ≡ some n

abbrev pub is_completed : TransferStatus → Bool
is_completed pending = false
is_completed in_progress = false
is_completed completed = true
is_completed failed = false

module _ (D : TransferTable) (N : Numerals) where
  open D use {Table, create, first, save}

  unfoldable pub new_transfer : String → String → String → ℤ → OwnershipTransfer
  new_transfer partition from to seq = record {
    id = 0;
    partition_id = partition;
    from_owner = from;
    to_owner = to;
    checkpoint_seq = seq;
    status = pending;
    attempts = pos 0;
    last_error = "";
  }

  -- `none` is an error.
  abbrev printed : Option ℕ → Option String
  printed none = none
  printed (some n) = some (N.print n)

  unfoldable pub initiate_transfer : String → String → String → ℤ → Table → Table × Option String
  initiate_transfer partition from to seq t =
      let (t', id) = create (new_transfer partition from to seq) t in (t', printed id)

  abbrev row_of : Option ℕ → Table → Option OwnershipTransfer
  row_of none t = none
  row_of (some n) t = first n t

  unfoldable pub get_transfer : String → Table → Option OwnershipTransfer
  get_transfer transfer_id t = row_of (N.scan transfer_id) t

  abbrev readiness : Option OwnershipTransfer → Option Bool
  readiness none = none
  readiness (some tr) = some (is_completed tr.status)

  unfoldable pub is_target_ready : String → Table → Option Bool
  is_target_ready transfer_id t = readiness (get_transfer transfer_id t)

  abbrev completing : Option OwnershipTransfer → Table → Table × Bool
  completing none t = (t, false)
  completing (some tr) t = save (record tr { status = completed }) t

  -- With whether there is no error.
  unfoldable pub mark_transfer_completed : String → Table → Table × Bool
  mark_transfer_completed transfer_id t = completing (get_transfer transfer_id t) t

  -- A transfer that was created is known by its text, and is not ready.
  pub is_target_ready-initiate_transfer :
      (partition from to : String) (seq : ℤ) (t : Table) (id : String)
      → (initiate_transfer partition from to seq t).1 ≡ some id
      → is_target_ready id (initiate_transfer partition from to seq t).0 ≡ some false
  unfolding initiate_transfer is_target_ready get_transfer new_transfer
  is_target_ready-initiate_transfer partition from to seq t id h =
      by_id (create (new_transfer partition from to seq) t).1 refl h
    where
      by_id :
          (n : Option ℕ)
          → (create (new_transfer partition from to seq) t).1 ≡ n
          → printed n ≡ some id
          → readiness (row_of (N.scan id) (create (new_transfer partition from to seq) t).0)
            ≡ some false
      by_id none q h = absurd (cc)
      by_id (some n) q h =
          let same : N.print n ≡ id = cc in
          rw (← same, N.scan-print n, (D.first-create (new_transfer partition from to seq) t n q).1)
            refl

  -- A saved row that is completed is ready, and every other row is as it was.
  readiness-save :
      (tr : OwnershipTransfer) (t : Table) (n : ℕ) (o : Option ℕ)
      → tr.id ≡ n
      → (save (record tr { status = completed }) t).1 ≡ true
      → (readiness (first n (save (record tr { status = completed }) t).0) ≡ some true)
        × (o ≢ some n
            → readiness (row_of o (save (record tr { status = completed }) t).0)
              ≡ readiness (row_of o t))
  readiness-save tr t n o e h = (ready, others o)
    where
      ready : readiness (first n (save (record tr { status = completed }) t).0) ≡ some true
      ready = rw (← e, D.first-save (record tr { status = completed }) t h) refl

      others :
          (o : Option ℕ)
          → o ≢ some n
          → readiness (row_of o (save (record tr { status = completed }) t).0)
            ≡ readiness (row_of o t)
      others none ne = refl
      others (some k) ne =
          ap readiness
            (D.first-save_other (record tr { status = completed }) t k (λ q. ne (ap some (q ∙ e))))

  -- Once the mark of a transfer is saved, that transfer is ready, and no other one has become so by it.
  pub is_target_ready-mark_transfer_completed :
      (id other : String) (t : Table)
      → (mark_transfer_completed id t).1 ≡ true
      → (is_target_ready id (mark_transfer_completed id t).0 ≡ some true)
        × (N.scan other ≢ N.scan id
            → is_target_ready other (mark_transfer_completed id t).0 ≡ is_target_ready other t)
  unfolding mark_transfer_completed is_target_ready get_transfer
  is_target_ready-mark_transfer_completed id other t h = by_number (N.scan id) h
    where
      by_row :
          (n : ℕ) (found : Option OwnershipTransfer)
          → first n t ≡ found
          → (completing found t).1 ≡ true
          → (readiness (first n (completing found t).0) ≡ some true)
            × (N.scan other ≢ some n
                → readiness (row_of (N.scan other) (completing found t).0)
                  ≡ readiness (row_of (N.scan other) t))
      by_row n none q h = absurd (cc)
      by_row n (some tr) q h = readiness-save tr t n (N.scan other) (D.first_id t n tr q) h

      by_number :
          (o : Option ℕ)
          → (completing (row_of o t) t).1 ≡ true
          → (readiness (row_of o (completing (row_of o t) t).0) ≡ some true)
            × (N.scan other ≢ o
                → readiness (row_of (N.scan other) (completing (row_of o t) t).0)
                  ≡ readiness (row_of (N.scan other) t))
      by_number none h = absurd (cc)
      by_number (some n) h = by_row n (first n t) refl h
