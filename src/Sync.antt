-- ===== src/Sync.antt =====
-- crates/sync/src/lib.rs: the queue of changes for the upstream server, and the copying of its mailboxes.
mod Tests
pub mod Queue
pub mod Retry
pub mod Job
pub mod Mirror
pub mod Ingest
pub mod Engine
pub mod Account
pub mod Apply
pub mod Flush
