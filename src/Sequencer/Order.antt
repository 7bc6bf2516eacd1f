-- ===== src/Sequencer/Order.antt =====
-- The order and the uniqueness of the numbers of biz/service/sequencer.go.
use cex_hertz_backend.Base.{
  ℕ, zero, suc, ◌+◌, ◌*◌, ◌%◌, ◌^◌, ◌<◌, String, some, List, [], ◌∷◌, ◌≡◌, ◌≢◌, ◌↔◌, refl, arith,
  ◌==◌, lookup_or, lookup-insert, str_eq, if◌then◌else◌,
}
use cex_hertz_backend.Base.Bits.{or-shift, and-mask}
use cex_hertz_backend.Sequencer.{
  Sequencer, new_sequencer_with_node_id, global_seq, next_global_seq, get_current_global_seq,
  get_symbol_seq, next_symbol_seq,
}

-- Below node number 1024, the number of a node made with shifts and masks is the local number for
-- node 0, and otherwise the local number modulo 2 ^ 40 behind the node's own range of 2 ^ 40 numbers.
global_seq_lem :
    (node local : ℕ)
    → node < 1024
    → global_seq node local ≡ (if node == 0 then local else node * 2 ^ 40 + local % 2 ^ 40)
unfolding global_seq
global_seq_lem node local h =
    let fits : node * 2 ^ 40 % 2 ^ 64 ≡ node * 2 ^ 40 = omega arith in
    rw (fits, and-mask 40 local, or-shift 40 node (local % 2 ^ 40) (omega arith)) refl

-- The numbers of n calls of `NextGlobalSeq` in a row.
unfoldable pub draws : ℕ → Sequencer → List ℕ
draws zero s = []
draws (suc n) s = let (s', seq) = next_global_seq s in seq ∷ draws n s'

-- Each number is above the one before it, and the first is above `b`.
abbrev pub Rises : ℕ → List ℕ → Type 0
Rises b [] = Unit
Rises b (x ∷ xs) = (b < x) × Rises x xs

next_global_seq-lt :
    (s : Sequencer)
    → s.node_id < 1024
    → s.local_seq + 1 < 2 ^ 40
    → (get_current_global_seq s < (next_global_seq s).1)
      × (get_current_global_seq (next_global_seq s).0 ≡ (next_global_seq s).1)
      × ((next_global_seq s).0.node_id ≡ s.node_id)
      × ((next_global_seq s).0.local_seq ≡ s.local_seq + 1)
unfolding next_global_seq get_current_global_seq
next_global_seq-lt s h r = ground (
  arith,
  global_seq_lem s.node_id s.local_seq h,
  global_seq_lem s.node_id ((s.local_seq + 1) % 2 ^ 64) h,
)

-- As long as a node with a number below 1024 has given out fewer than 2 ^ 40 numbers, its next ones
-- rise strictly from its current one on.
pub draws-Rises :
    (n : ℕ) (s : Sequencer)
    → s.node_id < 1024
    → s.local_seq + n < 2 ^ 40
    → Rises (get_current_global_seq s) (draws n s)
unfolding draws
draws-Rises zero s h r = tt
draws-Rises (suc n) s h r =
    let (up, now, same, one) = next_global_seq-lt s h (omega arith) in
    let later = draws-Rises n (next_global_seq s).0 (omega arith) (omega arith) in
    (up, rw now at later)

-- Two nodes with different numbers from 1 to 1023 never give out the same number, whatever each has
-- given out before.
pub next_global_seq_nodes :
    (s t : Sequencer)
    → s.node_id < 1024
    → t.node_id < 1024
    → s.node_id ≢ 0
    → t.node_id ≢ 0
    → s.node_id ≢ t.node_id
    → (next_global_seq s).1 ≢ (next_global_seq t).1
unfolding next_global_seq
next_global_seq_nodes s t hs ht s0 t0 d = ground (
  arith,
  global_seq_lem s.node_id ((s.local_seq + 1) % 2 ^ 64) hs,
  global_seq_lem t.node_id ((t.local_seq + 1) % 2 ^ 64) ht,
)

-- A sequencer is made for the node numbers up to 1023 and no others, with that number and nothing
-- given out.
new_sequencer_with_node_id_iff :
    (node : ℕ) (s : Sequencer)
    → (new_sequencer_with_node_id node ≡ some s)
      ↔ ((node < 1024) × (s ≡ record { node_id = node; local_seq = 0; symbol_seq = [] }))
unfolding new_sequencer_with_node_id
new_sequencer_with_node_id_iff node s = ground (arith, and-mask 10 node)

-- The next number of a symbol is the current one plus one, short of the wrap of 64 bits; it is then
-- the symbol's current number, and those of the other symbols are as they were.
next_symbol_seq_lem :
    (s : Sequencer) (symbol other : String)
    → get_symbol_seq s symbol + 1 < 2 ^ 64
    → ((next_symbol_seq s symbol).1 ≡ get_symbol_seq s symbol + 1)
      × (get_symbol_seq (next_symbol_seq s symbol).0 other
          ≡ (if str_eq symbol other then get_symbol_seq s symbol + 1 else get_symbol_seq s other))
unfolding next_symbol_seq get_symbol_seq lookup_or
next_symbol_seq_lem s symbol other h = ground (
  arith,
  lookup-insert symbol other ((lookup_or 0 symbol s.symbol_seq + 1) % 2 ^ 64) s.symbol_seq,
)
