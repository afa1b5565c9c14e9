-- ===== src/Store.antt =====
-- celery_root/core/db/adapters/sqlite/__init__.py: the controller of the task store. The database
-- engine is not part of this repository: a table is a parameter with the laws of `Store.Table`.
pub mod Table
pub mod Tasks
pub mod Throughput
pub mod Queues
pub mod Cleanup
pub mod Workers
mod Examples
