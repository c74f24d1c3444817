-- ===== src/Dispatch.antt =====
-- crates/luminal-vgd-driver/src/dispatch.rs: the control device. State has its data and the
-- requests' bytes, Pool the permanent pool, Handlers one function per request and `dispatch`
-- itself.
pub mod State
pub mod Wire
pub mod Pool
pub mod Handlers
pub mod Updates
pub mod Main
pub mod Mirror
pub mod Cases
pub mod Gate
pub mod Validity
pub mod Totality
pub mod Kept
pub mod Plugged
pub mod Sweep
pub mod Parked
pub mod Life
