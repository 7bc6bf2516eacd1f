-- ===== src/Position.antt =====
-- The processor that moves positions, biz/service/event_processor_position.go.
pub mod Handler
pub mod Atomic
