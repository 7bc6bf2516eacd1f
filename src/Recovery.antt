-- ===== src/Recovery.antt =====
-- The recovery after a crash: biz/service/recovery_executor.go, under the locks of
-- biz/service/redis_lock_manager.go.
pub mod Lock
pub mod Executor
pub mod Plan
pub mod Outcome
pub mod Startup
