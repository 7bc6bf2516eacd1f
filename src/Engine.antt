-- ===== src/Engine.antt =====
-- The match engine, biz/service/match_engine.go.
pub mod Types
pub mod Submit
pub mod Match
pub mod Intake
pub mod Falling
pub mod Turns
