-- ===== src/Examples/Numbers.antt =====
-- Sequence numbers at concrete inputs.
use cex_hertz_backend.Base.{[], ◌∷◌, ◌≢◌, arith}
use cex_hertz_backend.Sequencer.{Sequencer, next_global_seq}
use cex_hertz_backend.Sequencer.Order.{next_global_seq_nodes}

abbrev node_three : Sequencer
node_three = record { node_id = 3; local_seq = 41; symbol_seq = ("BTCUSDT", 7) ∷ [] }

abbrev node_five : Sequencer
node_five = record { node_id = 5; local_seq = 41; symbol_seq = [] }

next_global_seq_nodes_example : (next_global_seq node_three).1 ≢ (next_global_seq node_five).1
next_global_seq_nodes_example =
    next_global_seq_nodes node_three node_five (omega arith) (omega arith) (omega arith)
      (omega arith) (omega arith)
