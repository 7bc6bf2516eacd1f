-- ===== src/Sequencer.antt =====
-- The generator of sequence numbers: biz/service/sequencer.go. A uint64 is a number below 2 ^ 64;
-- each method runs under its lock or as one atomic operation, so a call is one step.
pub mod Order
use Prim.Native.Nat.{bit_and, bit_or}
use cex_hertz_backend.Base.{
  ℕ, ◌+◌, ◌*◌, ◌%◌, ◌^◌, String, Bool, Option, none, some, [], Dict, lookup_or, insert, ltb, ◌==◌,
  if◌then◌else◌,
}

pub record Sequencer : Type 0 where
  pub node_id : ℕ
  pub local_seq : ℕ
  pub symbol_seq : Dict ℕ

unfoldable pub new_sequencer : Sequencer
new_sequencer = record { node_id = 0; local_seq = 0; symbol_seq = [] }

-- `none` is the panic.
unfoldable pub new_sequencer_with_node_id : ℕ → Option Sequencer
new_sequencer_with_node_id node =
    if ltb 1023 node
    then none
    else some (record { node_id = bit_and node 0x3ff; local_seq = 0; symbol_seq = [] })

-- (nodeID << 40) | (local & 0xFFFFFFFFFF), or the local number of a single node.
unfoldable pub global_seq : ℕ → ℕ → ℕ
global_seq node local =
    if node == 0 then local else bit_or (node * 2 ^ 40 % 2 ^ 64) (bit_and local 0xff_ffff_ffff)

unfoldable pub next_global_seq : Sequencer → Sequencer × ℕ
next_global_seq s =
    let local = (s.local_seq + 1) % 2 ^ 64 in
    (record s { local_seq = local }, global_seq s.node_id local)

unfoldable pub get_current_global_seq : Sequencer → ℕ
get_current_global_seq s = global_seq s.node_id s.local_seq

unfoldable pub get_node_id : Sequencer → ℕ
get_node_id s = s.node_id

-- A symbol that was not seen reads as 0.
unfoldable pub get_symbol_seq : Sequencer → String → ℕ
get_symbol_seq s symbol = lookup_or 0 symbol s.symbol_seq

unfoldable pub set_symbol_seq : Sequencer → String → ℕ → Sequencer
set_symbol_seq s symbol seq = record s { symbol_seq = insert symbol seq s.symbol_seq }

unfoldable pub next_symbol_seq : Sequencer → String → Sequencer × ℕ
next_symbol_seq s symbol =
    let seq = (lookup_or 0 symbol s.symbol_seq + 1) % 2 ^ 64 in
    (record s { symbol_seq = insert symbol seq s.symbol_seq }, seq)
