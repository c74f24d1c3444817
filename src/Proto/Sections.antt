-- ===== src/Proto/Sections.antt =====
-- The header of the shared ring section of crates/luminal-driver-proto/src/lib.rs.
use luminal_vgd.Prelude.{ℕ}

pub record RingHeader : Type 0 where
  pub magic : ℕ
  pub header_version : ℕ
  pub ring_generation : ℕ
  pub slot_count : ℕ
  pub state : ℕ
  pub reserved0 : ℕ
  pub latest_sequence : ℕ
  pub latest_present_qpc : ℕ
  pub frames_published : ℕ
  pub frames_dropped : ℕ
  pub driver_heartbeat_qpc : ℕ
  pub qpc_frequency : ℕ

abbrev pub ring_magic : ℕ
ring_magic = 0x4C56_4752

abbrev pub ring_heartbeat_interval_ms : ℕ
ring_heartbeat_interval_ms = 500

abbrev pub ring_heartbeat_stale_ms : ℕ
ring_heartbeat_stale_ms = 2000
