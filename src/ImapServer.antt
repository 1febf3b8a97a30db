-- ===== src/ImapServer.antt =====
-- crates/imap-server/src/imap.rs: the parts of the IMAP frontend that compute replies.
mod Tests
pub mod ListPattern
pub mod StoreFlags
pub mod FetchBytes
pub mod SearchMatch
pub mod AppendMetadata
pub mod SearchRequest
pub mod Thread
