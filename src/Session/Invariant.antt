-- ===== src/Session/Invariant.antt =====
-- The invariant of `SessionTable` in crates/luminal-vgd-core/src/session.rs.
mod Defs
mod Creating
mod Updating
mod Settling
mod Removing
mod Expiry
pub use Defs.*
pub use Creating.*
pub use Updating.*
pub use Settling.*
pub use Expiry.*
pub use Removing.*
