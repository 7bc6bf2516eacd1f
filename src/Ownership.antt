-- ===== src/Ownership.antt =====
-- The ownership of a partition and its transfer from node to node: the state machine of
-- biz/model/partition_ownership.go, and the coordinator of biz/service/db_transfer_coordinator.go.
pub mod Types
pub mod Guards
pub mod Machine
pub mod Diagram
pub mod Calls
pub mod Invariant
pub mod Migration
pub mod Coordinator
pub mod Commit
