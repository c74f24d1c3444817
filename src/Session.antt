-- ===== src/Session.antt =====
-- crates/luminal-vgd-core/src/session.rs: the monitors and their leases. Time is an argument of
-- each call. A call that changes the table returns the new table beside its answer; `none` is a
-- panic.
pub mod State
pub mod Lease
pub mod Create
pub mod Update
pub mod Settle
pub mod Removal
pub mod Invariant
pub mod Reports
pub mod Again
pub mod Timeouts
pub mod Status
pub mod Live
pub use State.{
  Monitor, PendingTargets, BlockedPush, SessionTable, ModeUpdateResult, applied, not_applied,
  blocked, SettleOutcome, settled, superseded_committed, stale, ModeUpdate,
}
