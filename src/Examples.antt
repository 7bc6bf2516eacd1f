-- ===== src/Examples.antt =====
-- The theorems at concrete inputs, with concrete values of the parameters.
mod Levels
mod Records
mod Book
mod Ownership
mod Protocol
mod Numbers
mod EventLog
mod Offsets
mod Partition
mod Pipeline
mod Recovery
mod Snapshot
mod Engine
mod Position
mod NodeIds
mod Coordinator
mod Epoch
mod Outbox
