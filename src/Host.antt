-- ===== src/Host.antt =====
-- crates/luminal-vgd-host: what the streaming host decides about its capture source. Notice has the
-- notices, RingWatch the reading of a sampled ring header, Actions the data and Controller the
-- methods of the capture controller.
pub mod Notice
pub mod Actions
pub mod RingWatch
pub mod Controller
