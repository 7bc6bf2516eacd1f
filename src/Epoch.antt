-- ===== src/Epoch.antt =====
-- The epochs of the partitions' owners: biz/service/ownership_epoch_manager.go over Redis, and the
-- checks of orders against them, biz/handler/order_fencing.go.
pub mod Redis
pub mod Manager
pub mod Fencing
pub mod Expiry
pub mod Order
pub mod Cache
