-- ===== src/Store.antt =====
-- The crate kols-store: the projection of a channel's records.
pub mod Verdict
