-- ===== src/Protocol.antt =====
-- The transfer protocol over the ownership machine: biz/model/transfer_protocol.go.
pub mod Messages
pub mod Handler
pub mod Order
pub mod Handover
