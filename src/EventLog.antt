-- ===== src/EventLog.antt =====
-- The event log in memory: biz/service/event_log_memory.go, with the envelopes of
-- biz/model/event.go.
pub mod Envelope
pub mod Log
pub mod Index
pub mod Query
pub mod Store
