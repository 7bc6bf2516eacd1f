-- ===== src/Partition.antt =====
-- The partitions of symbols: the table of biz/model/partition.go, biz/service/partition_manager.go,
-- biz/service/partition_aware_match_engine.go, and biz/service/setup_coordinators.go.
pub mod Table
pub mod Symbols
pub mod Manager
pub mod Aware
pub mod Registry
pub mod Watched
pub mod Setup
