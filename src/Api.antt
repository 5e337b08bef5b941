-- ===== src/Api.antt =====
-- The crate kols-api: what an interface asks for, and whether the actor may have it.
pub mod Command
pub mod Gate
pub mod Arms
pub mod Authorize
