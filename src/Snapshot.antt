-- ===== src/Snapshot.antt =====
-- The snapshots of the state, biz/service/state_snapshot.go, and the validator of
-- biz/service/state_validator.go.
pub mod Types
pub mod Checksum
pub mod Find
pub mod Compare
pub mod Listed
pub mod Verdict
pub mod Validator
