-- ===== src/Offsets.antt =====
-- The Kafka offsets of biz/service/kafka_offset_tracker.go.
pub mod Tracker
pub mod Invariant
pub mod Manager
