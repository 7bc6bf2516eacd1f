-- ===== src/Protocol/Handler.antt =====
-- The methods of `TransferProtocol` of biz/model/transfer_protocol.go. `now` is the time that
-- `time.Now()` gives for the reply.
use cex_hertz_backend.Base.{
  ℤ, pos, negsuc, String, str_eq, Bool, true, false, ◌||◌, ◌&&◌, Option, none, some, [], ◌∷◌, ltb_ℤ,
  length, ◌==◌, if◌then◌else◌, Dict,
}
use cex_hertz_backend.Ownership.Types.{
  OwnershipState, owned, migration_pending, frozen, flushing, transferring, OwnershipMetadata,
  OwnershipStateMachine, OwnershipError, Clock,
}
use cex_hertz_backend.Ownership.Machine.{
  Outcome, start_migration, freeze, flush, transfer, commit, rollback, get_metadata, get_state,
}
use cex_hertz_backend.Protocol.Messages.{
  TransferRequest, TransferResponse, FreezeSignal, FlushAck, TransferSignal, TransferContext,
  no_reason, not_owned, failed_to_start, ProtocolError, not_initialized, cannot_freeze,
  cannot_flush, cannot_transfer, cannot_commit, flush_failed, transfer_failed, machine_failed,
  checkpoint_violation, offsets_missing, target_missing, Fallible, ok, err, Reply,
}

-- A reply that leaves the machine as it is.
abbrev answer : {A : Type 0} → OwnershipStateMachine → Fallible A → Reply A
answer f r = record { machine = some f; result = r; notices = [] }

abbrev after : {A : Type 0} → Outcome → Fallible A → Reply A
after o r = record { machine = some o.machine; result = r; notices = o.notices }

abbrev uninitialized : {A : Type 0} → Reply A
uninitialized = record { machine = none; result = err not_initialized; notices = [] }

-- The result of a method that returns the error of the machine's call.
abbrev passed_on : (OwnershipError → ProtocolError) → Outcome → Reply (Unit {0})
passed_on wrapped o = elim (o.failure) [
  | none ↦ after o (ok tt)
  | some e ↦ after o (err (wrapped e))
]

refusal : ℤ → TransferRequest → TransferResponse
refusal now req = record {
  accepted = false;
  reason = no_reason;
  checkpoint_seq = negsuc 0;
  response_time = now;
  request_id = req.request_id;
}

started : ℤ → TransferRequest → Outcome → Reply TransferResponse
unfolding refusal get_metadata
started now req o = elim (o.failure) [
  | some e ↦ after o (ok (record (refusal now req) { reason = failed_to_start e }))
  | none ↦ after o (
      ok (record {
        accepted = true;
        reason = no_reason;
        checkpoint_seq = (get_metadata o.machine).checkpoint_seq;
        response_time = now;
        request_id = req.request_id;
      }))
]

abbrev is_owned : OwnershipState → Bool
is_owned owned = true
is_owned _ = false

abbrev is_pending : OwnershipState → Bool
is_pending migration_pending = true
is_pending _ = false

abbrev is_frozen : OwnershipState → Bool
is_frozen frozen = true
is_frozen _ = false

abbrev is_flushing : OwnershipState → Bool
is_flushing flushing = true
is_flushing _ = false

abbrev is_transferring : OwnershipState → Bool
is_transferring transferring = true
is_transferring _ = false

unfoldable pub start_transfer :
    Clock → ℤ → Option OwnershipStateMachine → TransferRequest → Reply TransferResponse
unfolding started refusal get_state
start_transfer c now none req = uninitialized
start_transfer c now (some f) req =
    if is_owned (get_state f)
    then started now req (start_migration c f req.target_owner "protocol")
    else answer f (ok (record (refusal now req) { reason = not_owned (get_state f) }))

unfoldable pub apply_freeze_signal :
    Clock → Option OwnershipStateMachine → FreezeSignal → Reply (Unit {0})
unfolding get_state
apply_freeze_signal c none sig = uninitialized
apply_freeze_signal c (some f) sig =
    if is_pending (get_state f)
    then passed_on machine_failed (freeze c f sig.source_owner)
    else answer f (err (cannot_freeze (get_state f)))

-- `copyKafkaOffsets` copies a map of entries, which is the same map as a value.
unfoldable pub copy_kafka_offsets : Dict ℤ → Dict ℤ
copy_kafka_offsets [] = []
copy_kafka_offsets ((k, v) ∷ m) = (k, v) ∷ copy_kafka_offsets m

-- The acknowledgement has no request id: the field keeps its zero value.
flush_ack : ℤ → String → OwnershipMetadata → FlushAck
flush_ack now owner m = record {
  partition_id = m.partition_id;
  last_processed_seq = m.last_processed_seq;
  checkpoint_seq = m.checkpoint_seq;
  kafka_offsets = copy_kafka_offsets m.kafka_offset;
  source_owner = owner;
  flush_time = now;
  request_id = "";
}

flushed : ℤ → String → Outcome → Reply FlushAck
unfolding flush_ack get_metadata
flushed now owner o = elim (o.failure) [
  | some e ↦ after o (err (flush_failed e))
  | none ↦ after o (ok (flush_ack now owner (get_metadata o.machine)))
]

unfoldable pub complete_flushing :
    Clock → ℤ → Option OwnershipStateMachine → String → Reply FlushAck
unfolding flushed get_state
complete_flushing c now none owner = uninitialized
complete_flushing c now (some f) owner =
    if is_frozen (get_state f)
    then flushed now owner (flush c f owner)
    else answer f (err (cannot_flush (get_state f)))

unfoldable pub apply_transfer_signal :
    Clock → Option OwnershipStateMachine → TransferSignal → Reply (Unit {0})
unfolding get_state
apply_transfer_signal c none sig = uninitialized
apply_transfer_signal c (some f) sig =
    if is_flushing (get_state f)
    then passed_on transfer_failed (transfer c f sig.source_owner)
    else answer f (err (cannot_transfer (get_state f)))

unfoldable pub commit_transfer : Clock → Option OwnershipStateMachine → String → Reply (Unit {0})
unfolding get_state
commit_transfer c none target = uninitialized
commit_transfer c (some f) target =
    if is_transferring (get_state f)
    then passed_on machine_failed (commit c f target)
    else answer f (err (cannot_commit (get_state f)))

unfoldable pub rollback_transfer : Clock → Option OwnershipStateMachine → String → Reply (Unit {0})
rollback_transfer c none reason = uninitialized
rollback_transfer c (some f) reason = passed_on machine_failed (rollback c f reason)

unfoldable pub get_transfer_context : ℤ → Option OwnershipStateMachine → Option TransferContext
unfolding get_metadata
get_transfer_context now none = none
get_transfer_context now (some f) = some (record {
  partition_id = m.partition_id;
  source_owner = m.current_owner;
  target_owner = m.target_owner;
  state = m.state;
  start_time = now;
  timeout_ms = pos 30000;
  checkpoint_seq = m.checkpoint_seq;
  kafka_offsets = copy_kafka_offsets m.kafka_offset;
})
  where
    m : OwnershipMetadata
    m = get_metadata f

unfoldable pub validate_transfer_invariants : Option OwnershipStateMachine → Option ProtocolError
unfolding get_metadata
validate_transfer_invariants none = some not_initialized
validate_transfer_invariants (some f) =
    if ltb_ℤ m.last_processed_seq m.checkpoint_seq
    then some (checkpoint_violation m.checkpoint_seq m.last_processed_seq)
    else if (is_transferring m.state || is_flushing m.state) && length m.kafka_offset == 0
    then some offsets_missing
    else if (is_pending m.state
          || is_frozen m.state
          || is_flushing m.state
          || is_transferring m.state)
        && str_eq m.target_owner ""
    then some (target_missing m.state)
    else none
  where
    m : OwnershipMetadata
    m = get_metadata f
