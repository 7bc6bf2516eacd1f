-- ===== src/Protocol/Messages.antt =====
-- The messages of biz/model/transfer_protocol.go. A `time.Time` is a number of nanoseconds.
use cex_hertz_backend.Base.{ℤ, String, Bool, Option, Dict}
use cex_hertz_backend.Ownership.Types.{OwnershipState, OwnershipStateMachine, OwnershipError}
use cex_hertz_backend.Ownership.Machine.{Notice}
use cex_hertz_backend.Base.{List}

pub record TransferRequest : Type 0 where
  pub partition_id : String
  pub source_owner : String
  pub target_owner : String
  pub timeout_ms : ℤ
  pub max_retries : ℤ
  pub request_time : ℤ
  pub request_id : String

-- The text of `Reason`, by what it is made of.
pub data Reason : Type 0 where
  no_reason : Reason
  not_owned : OwnershipState → Reason
  failed_to_start : OwnershipError → Reason

pub record TransferResponse : Type 0 where
  pub accepted : Bool
  pub reason : Reason
  pub checkpoint_seq : ℤ
  pub response_time : ℤ
  pub request_id : String

pub record FreezeSignal : Type 0 where
  pub partition_id : String
  pub freeze_timestamp : ℤ
  pub freeze_time : ℤ
  pub source_owner : String

pub record FlushAck : Type 0 where
  pub partition_id : String
  pub last_processed_seq : ℤ
  pub checkpoint_seq : ℤ
  pub kafka_offsets : Dict ℤ
  pub source_owner : String
  pub flush_time : ℤ
  pub request_id : String

pub record TransferSignal : Type 0 where
  pub partition_id : String
  pub source_owner : String
  pub target_owner : String
  pub start_from_seq : ℤ
  pub start_from_checkpoint : ℤ
  pub kafka_offsets : Dict ℤ
  pub transfer_time : ℤ
  pub request_id : String

-- The fields that `GetTransferContext` fills; the others keep their zero values.
pub record TransferContext : Type 0 where
  pub partition_id : String
  pub source_owner : String
  pub target_owner : String
  pub state : OwnershipState
  pub start_time : ℤ
  pub timeout_ms : ℤ
  pub checkpoint_seq : ℤ
  pub kafka_offsets : Dict ℤ

pub data ProtocolError : Type 0 where
  not_initialized : ProtocolError
  cannot_freeze cannot_flush cannot_transfer cannot_commit : OwnershipState → ProtocolError
  flush_failed transfer_failed machine_failed : OwnershipError → ProtocolError
  checkpoint_violation : ℤ → ℤ → ProtocolError
  offsets_missing : ProtocolError
  target_missing : OwnershipState → ProtocolError

pub data Fallible (A : Type 0) : Type 0 where
  ok : A → Fallible A
  err : ProtocolError → Fallible A

-- What a call of the protocol leaves: its machine (`none` for nil), its result and the notices.
pub record Reply (A : Type 0) : Type 0 where
  pub machine : Option OwnershipStateMachine
  pub result : Fallible A
  pub notices : List Notice
