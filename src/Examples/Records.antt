-- ===== src/Examples/Records.antt =====
-- Concrete machines, coordinators, clocks and messages.
use cex_hertz_backend.Base.{pos, String, true, Option, [], ◌∷◌}
use cex_hertz_backend.Ownership.Types.{
  OwnershipState, value, TransferCoordinator, OwnershipStateMachine, Clock,
}
use cex_hertz_backend.Protocol.Messages.{TransferRequest, FreezeSignal, TransferSignal}

-- A coordinator that gives one record and finds its target ready.
abbrev pub coordinator : TransferCoordinator
coordinator = record {
  initiate_transfer = λ m p s t q. value "transfer-1";
  is_target_ready = λ m id. value true;
}

abbrev pub clock : Clock
clock = record {
  guard_time = pos 1000;
  action_time = pos 1000;
  transition_time = pos 1000;
  history_time = pos 1000;
  moment = 1;
}

-- The partition of node-a on its way to node-b, in the given state.
abbrev pub machine : OwnershipState → Option TransferCoordinator → String → OwnershipStateMachine
machine state with_coordinator target = record {
  metadata = record {
    partition_id = "p-1";
    current_owner = "node-a";
    previous_owner = "";
    target_owner = target;
    state = state;
    symbols = "BTCUSDT" ∷ [];
    last_processed_seq = pos 20;
    state_transition_time = pos 900;
    migration_start_time = pos 990;
    checkpoint_seq = pos 18;
    transfer_id = "transfer-1";
    kafka_offset = ("BTCUSDT", pos 40) ∷ [];
    version = pos 4;
    transition_history = [];
  };
  listeners = 1 ∷ 2 ∷ [];
  migration_timeout = pos 30000000000;
  transfer_coordinator = with_coordinator;
}

abbrev pub request : TransferRequest
request = record {
  partition_id = "p-1";
  source_owner = "node-a";
  target_owner = "node-b";
  timeout_ms = pos 30000;
  max_retries = pos 3;
  request_time = pos 1;
  request_id = "r-1";
}

abbrev pub freeze_signal : FreezeSignal
freeze_signal = record {
  partition_id = "p-1";
  freeze_timestamp = pos 1;
  freeze_time = pos 1;
  source_owner = "node-a";
}

abbrev pub transfer_signal : TransferSignal
transfer_signal = record {
  partition_id = "p-1";
  source_owner = "node-a";
  target_owner = "node-b";
  start_from_seq = pos 20;
  start_from_checkpoint = pos 18;
  kafka_offsets = ("BTCUSDT", pos 40) ∷ [];
  transfer_time = pos 1;
  request_id = "r-1";
}
