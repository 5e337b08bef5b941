-- ===== src/Node.antt =====
-- The crate kols-node: what a node makes of the log, the entries that its commands write, and the counts.
pub mod Structure
pub mod Entries
pub mod Unread
