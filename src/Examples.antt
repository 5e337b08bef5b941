-- ===== src/Examples.antt =====
-- Concrete inputs, and the theorems at them.
pub mod Tiny
pub mod Values
mod Views
mod Limits
mod Permissions
mod Logs
pub mod Codec
pub mod Beats
mod Deliveries
pub mod Channels
mod Counts
mod Replays
mod Projections
