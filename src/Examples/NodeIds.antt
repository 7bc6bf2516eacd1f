-- ===== src/Examples/NodeIds.antt =====
-- Two nodes that ask for numbers at once, over a Consul that counts the writes of each key.
use cex_hertz_backend.Base.{
  ℕ, zero, suc, ◌+◌, ◌≤◌, ◌<◌, ℤ, pos, String, str_eq, str_eq_iff, Bool, true, false, Option, none,
  some, List, [], ◌∷◌, ◌≡◌, ◌≢◌, refl, ap, arith, ◌==◌, if◌then◌else◌, Bool-cases, inl, inr,
}
use Prim.Native.Char.{code}
use native.Mathlib.Decide.{ℕ_discrete}
use cex_hertz_backend.NodeIds.Consul.{NodeIdEntry, Codec, KvPair, Consul, index_of}
use cex_hertz_backend.NodeIds.Manager.{
  Stage, Wire, answered, new_node_id_manager, get_or_allocate_node_id, advance,
}
use cex_hertz_backend.NodeIds.Cluster.{
  System, call, restart, request, Reach, here, next, Apart, Fresh,
}
use cex_hertz_backend.NodeIds.Unique.{returned_ids_differ, returned_id_kept}
use cex_hertz_backend.NodeIds.Ends.{drive, get_or_allocate_node_id_ends, Over}

data Value : Type 0 where
  number : ℕ → Value
  entry : NodeIdEntry → Value

abbrev entry_of : Value → Option NodeIdEntry
entry_of (number n) = none
entry_of (entry e) = some e

abbrev number_of : Value → ℕ
number_of (number n) = n
number_of (entry e) = 0

abbrev codec : Codec
codec = record {
  Bytes = Value;
  marshal_entry = entry;
  unmarshal_entry = entry_of;
  print_id = number;
  scan_id = number_of;
  unmarshal-marshal = λ e. refl;
  scan-print = λ n h. refl;
}

abbrev Cells : Type 0
Cells = String → Option (KvPair Value)

abbrev write : Cells → String → Value → Cells
write s k v j =
    if str_eq k j then some (record { value = v; modify_index = index_of (s k) + 1 }) else s j

abbrev check_and_set : Cells → String → Value → ℕ → Cells × Bool
check_and_set s k v i = if index_of (s k) == i then (write s k v, true) else (s, false)

write_same :
    (s : Cells) (k : String) (v : Value)
    → write s k v k ≡ some (record { value = v; modify_index = index_of (s k) + 1 })
write_same s k v = rw ((str_eq_iff k k).1 refl) refl

write_other : (s : Cells) (k j : String) (v : Value) → k ≢ j → write s k v j ≡ s j
write_other s k j v n = elim (Bool-cases (str_eq k j)) [
  | inl h ↦ absurd (n ((str_eq_iff k j).0 h))
  | inr h ↦ rw h refl
]

taken :
    (s : Cells) (k : String) (v : Value) (i : ℕ)
    → (check_and_set s k v i).1 ≡ true
    → (index_of (s k) ≡ i)
      × ((j : ℕ) × ((check_and_set s k v i).0 k ≡ some (record { value = v; modify_index = j }))
          × (i < j))
taken s k v i h = elim (Bool-cases (index_of (s k) == i)) [
  | inl e ↦ (ground arith, (index_of (s k) + 1, rw e (write_same s k v), ground arith))
  | inr n ↦ absurd (ground arith)
]

refused :
    (s : Cells) (k : String) (v : Value) (i : ℕ)
    → (check_and_set s k v i).1 ≡ false
    → (check_and_set s k v i).0 ≡ s
refused s k v i h = elim (Bool-cases (index_of (s k) == i)) [
  | inl e ↦ absurd (ground arith)
  | inr n ↦ rw n refl
]

apart_cells :
    (s : Cells) (k j : String) (v : Value) (i : ℕ) → k ≢ j → (check_and_set s k v i).0 j ≡ s j
apart_cells s k j v i n = elim (Bool-cases (index_of (s k) == i)) [
  | inl e ↦ rw e (write_other s k j v n)
  | inr e ↦ rw e refl
]

abbrev consul : Consul Value
consul = record {
  Store = Cells;
  get = λ s k. s k;
  put = write;
  cas = check_and_set;
  get-put = λ s k v. (index_of (s k) + 1, write_same s k v, omega arith);
  get-put_other = write_other;
  cas_taken = taken;
  cas_refused = refused;
  cas_other = apart_cells;
}

-- The addresses "a", "aa", and so on.
abbrev addr : ℕ → String
addr zero = "a"
addr (suc n) = String.◌∷◌ "a" (addr n)

abbrev size : String → ℕ
size String.[] = 0
size (String.◌∷◌ c s) = suc (size s)

size-addr : (i : ℕ) → size (addr i) ≡ suc i
size-addr zero = refl
size-addr (suc n) = ap suc (size-addr n)

abbrev first : String → ℕ
first String.[] = 0
first (String.◌∷◌ c s) = code c

first-addr : (i : ℕ) → first (addr i) ≡ 97
first-addr zero = refl
first-addr (suc n) = refl

apart : Apart codec consul addr
apart = record {
  addrs = λ i j n e. n (omega (arith, ap size e, size-addr i, size-addr j));
  counter = λ i e. absurd (omega (arith, ap first e, first-addr i));
}

abbrev empty_cells : Cells
empty_cells k = none

abbrev start : System codec consul
start = record { store = empty_cells; nodes = λ i. new_node_id_manager (addr i) }

start-Fresh : Fresh codec consul addr start
start-Fresh = record { nodes = λ i. refl; counter = refl; entries = λ i. refl }

-- Both nodes call.
record Ran : Type 0 where
  last : System codec consul
  reach : Reach codec consul start last

abbrev asked : Ran → ℕ → Ran
asked r i = record { last = _; reach = next r.reach (request i answered (pos 0)) }

abbrev both_called : Ran
both_called = record { last = _; reach = next (next here (call 0)) (call 1) }

-- Both read the counter; the node 1 is beaten, reads again, and gets the next number.
abbrev raced : Ran
raced =
    asked
      (asked
        (asked (asked (asked (asked (asked (asked (asked (asked both_called 0) 1) 0) 1) 0) 1) 0) 1)
        1)
      1

raced-stages :
    ((raced.last.nodes 0).stage ≡ Stage.returned 1)
    × ((raced.last.nodes 1).stage ≡ Stage.returned 2)
unfolding get_or_allocate_node_id advance new_node_id_manager ℕ_discrete
raced-stages = (refl, refl)

returned_ids_differ_example : (1 ≤ 1) × (1 ≤ 1023) × (◌≢◌ {A = ℕ} 0 1 → ◌≢◌ {A = ℕ} 1 2)
returned_ids_differ_example =
    returned_ids_differ apart start-Fresh raced.reach 0 1 1 2 raced-stages.0 raced-stages.1

-- The node 1 starts again and asks for its entry.
abbrev restarted : Ran
restarted = asked (record { last = _; reach = next (next raced.reach (restart 1)) (call 1) }) 1

restarted-stage : (restarted.last.nodes 1).stage ≡ Stage.returned 2
unfolding get_or_allocate_node_id advance new_node_id_manager ℕ_discrete
restarted-stage = refl

abbrev again : Reach codec consul raced.last restarted.last
again = next (next (next here (restart 1)) (call 1)) (request 1 answered (pos 0))

returned_id_kept_example : ◌≡◌ {A = ℕ} 2 2
returned_id_kept_example =
    returned_id_kept apart start-Fresh raced.reach again 1 2 2 raced-stages.1 restarted-stage

abbrev eight : List (Wire × ℤ × Cells)
eight =
    let r : Wire × ℤ × Cells = (answered, pos 0, empty_cells) in r ∷ r ∷ r ∷ r ∷ r ∷ r ∷ r ∷ r ∷ []

get_or_allocate_node_id_ends_example :
    Over (drive codec consul eight (get_or_allocate_node_id (new_node_id_manager "node-a"))).stage
get_or_allocate_node_id_ends_example =
    get_or_allocate_node_id_ends codec consul (new_node_id_manager "node-a") eight (omega arith)
