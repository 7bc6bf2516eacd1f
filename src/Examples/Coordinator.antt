-- ===== src/Examples/Coordinator.antt =====
-- The coordinator over a table that is a function from numbers to rows, with numbers printed in unary.
use cex_hertz_backend.Base.{
  ℕ, zero, suc, pos, String, Bool, true, Option, none, some, ◌≡◌, ◌≢◌, refl, arith, ap, ◌∙◌, ◌==◌,
  if◌then◌else◌,
}
use Prim.Native.String.{[], ◌∷◌}
use cex_hertz_backend.Ownership.Types.{transferring, OwnershipStateMachine}
use cex_hertz_backend.Ownership.Machine.{commit}
use cex_hertz_backend.Ownership.Coordinator.{
  OwnershipTransfer, TransferTable, Numerals, initiate_transfer, mark_transfer_completed,
  get_transfer, new_transfer,
}
use cex_hertz_backend.Ownership.Commit.{db_transfer_coordinator, commit-mark_transfer_completed}
use cex_hertz_backend.Examples.Records.{clock, machine}

abbrev Rows : Type 0
Rows = ℕ → Option OwnershipTransfer

abbrev numbered : ℕ → Option OwnershipTransfer → Option OwnershipTransfer
numbered n none = none
numbered n (some row) = some (record row { id = n })

abbrev row_at : ℕ → Rows → Option OwnershipTransfer
row_at n f = numbered n (f n)

abbrev put : OwnershipTransfer → Rows → Rows
put row f k = if k == row.id then some row else f k

-- A row is made where there is none yet.
abbrev create_row : Option OwnershipTransfer → OwnershipTransfer → ℕ → Rows → (ℕ × Rows) × Option ℕ
create_row none row c f = ((suc c, put (record row { id = c }) f), some c)
create_row (some old) row c f = ((c, f), none)

put_same : (row : OwnershipTransfer) (f : Rows) (k : ℕ) → k ≡ row.id → put row f k ≡ some row
put_same row f k e = ground arith

put_other : (row : OwnershipTransfer) (f : Rows) (k : ℕ) → k ≢ row.id → put row f k ≡ f k
put_other row f k ne = ground arith

row_at_id : (t : ℕ × Rows) (n : ℕ) (row : OwnershipTransfer) → row_at n t.1 ≡ some row → row.id ≡ n
row_at_id t n row e = from_row (t.1 n) e
  where
    from_row : (o : Option OwnershipTransfer) → numbered n o ≡ some row → row.id ≡ n
    from_row none e = absurd (cc)
    from_row (some r) e = cc

row_at-create_row :
    (old : Option OwnershipTransfer) (row : OwnershipTransfer) (c : ℕ) (f : Rows) (n : ℕ)
    → f c ≡ old
    → (create_row old row c f).1 ≡ some n
    → (row_at n f ≡ none) × (row_at n (create_row old row c f).0.1 ≡ some (record row { id = n }))
row_at-create_row none row c f n at_c e =
    let same : c ≡ n = cc in
    (rw (← same, at_c) refl, rw same (ap (numbered n) (put_same (record row { id = n }) f n refl)))
row_at-create_row (some r) row c f n at_c e = absurd (cc)

row_at-create_row_other :
    (old : Option OwnershipTransfer) (row : OwnershipTransfer) (c : ℕ) (f : Rows) (n k : ℕ)
    → (create_row old row c f).1 ≡ some n
    → k ≢ n
    → row_at k (create_row old row c f).0.1 ≡ row_at k f
row_at-create_row_other none row c f n k e ne =
    ap (numbered k) (put_other (record row { id = c }) f k (λ q. ne (q ∙ cc)))
row_at-create_row_other (some r) row c f n k e ne = absurd (cc)

abbrev table : TransferTable
table = record {
  Table = ℕ × Rows;
  create = λ row t. create_row (t.1 t.0) row t.0 t.1;
  first = λ n t. row_at n t.1;
  save = λ row t. ((t.0, put row t.1), true);
  first-create = λ row t n e. row_at-create_row (t.1 t.0) row t.0 t.1 n refl e;
  first-create_other = λ row t n k e ne. row_at-create_row_other (t.1 t.0) row t.0 t.1 n k e ne;
  first_id = row_at_id;
  first-save = λ row t e. ap (numbered row.id) (put_same row t.1 row.id refl);
  first-save_other = λ row t k ne. ap (numbered k) (put_other row t.1 k ne);
}

abbrev print : ℕ → String
print zero = []
print (suc n) = "1" ∷ print n

abbrev scan : String → ℕ
scan [] = zero
scan (c ∷ s) = suc (scan s)

scan-print : (n : ℕ) → scan (print n) ≡ n
scan-print zero = refl
scan-print (suc n) = ap suc (scan-print n)

abbrev numerals : Numerals
numerals = record {
  print = print;
  scan = λ s. some (scan s);
  scan-print = λ n. ap some (scan-print n);
}

abbrev empty : ℕ × Rows
empty = (1, λ n. none)

-- The table behind one transfer, and behind its mark.
abbrev made : (ℕ × Rows) × Option String
made = initiate_transfer table numerals "p-1" "node-a" "node-b" (pos 18) empty

abbrev marked : (ℕ × Rows) × Bool
marked = mark_transfer_completed table numerals "1" made.0

abbrev at_moment : ℕ → ℕ × Rows
at_moment m = if m == 1 then made.0 else marked.0

-- The partition on its way to node-b under the number of that transfer.
abbrev going : OwnershipStateMachine
going = record m { metadata = record (m.metadata) { transfer_id = "1" } }
  where
    m : OwnershipStateMachine
    m =
        machine transferring
          (some (db_transfer_coordinator table numerals "record not found" at_moment)) "node-b"

made_number : made.1 ≡ some "1"
unfolding initiate_transfer
made_number = refl

mark_saved : marked.1 ≡ true
unfolding initiate_transfer mark_transfer_completed get_transfer new_transfer
mark_saved = refl

commit-mark_transfer_completed_example :
    ((commit clock going "ops").failure ≢ none)
    × ((commit (record clock { moment = 2 }) going "ops").failure ≡ none)
    × ((commit (record clock { moment = 2 }) going "ops").machine.metadata.current_owner ≡ "node-b")
commit-mark_transfer_completed_example =
    commit-mark_transfer_completed table numerals "record not found" at_moment clock
      (record clock { moment = 2 }) going "p-1" "node-a" "node-b" "ops" (pos 18) empty refl refl
      (λ e. cc) made_number refl mark_saved refl
