-- ===== src/Core.antt =====
-- The crate kols-core: the domain model.
pub mod Hlc
pub mod Errors
pub mod Record
pub mod Cursor
pub mod Permissions
pub mod Limits
pub mod View
pub mod Segment
pub mod Ids
pub mod Log
pub mod Live
pub mod Dm
pub mod Policy
pub mod Channel
pub mod Presence
pub mod Names
