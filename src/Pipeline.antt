-- ===== src/Pipeline.antt =====
-- The event pipeline: biz/service/event_pipeline.go, with the contexts of biz/model/event_context.go
-- and the checkpoints of biz/service/checkpoint_manager.go and biz/dal/pg/checkpoint_repo.go.
pub mod Context
pub mod Rows
pub mod Checkpoints
pub mod Dispatch
pub mod Process
pub mod Progress
pub mod Once
pub mod Refinement
pub mod Registered
pub mod Returns
pub mod Crash
pub mod Resume
