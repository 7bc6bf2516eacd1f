-- ===== src/Outbox.antt =====
-- The outbox: the rows of biz/model/outbox.go, the repository of biz/dal/pg/outbox_repo.go, and the
-- dispatcher of biz/service/outbox_dispatcher.go.
pub mod Repo
pub mod Topic
pub mod Dispatcher
pub mod Settled
pub mod Marked
pub mod Batch
