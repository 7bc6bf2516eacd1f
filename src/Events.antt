-- ===== src/Events.antt =====
-- The events of the matching engine: biz/model/event.go.
pub mod Types
