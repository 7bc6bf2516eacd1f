-- ===== src/NodeIds.antt =====
-- The numbers of the nodes: biz/service/node_id_manager.go over Consul's key-value store.
pub mod Consul
pub mod Manager
pub mod Cluster
pub mod Invariant
pub mod Requests
pub mod Frame
pub mod Unique
pub mod Ends
