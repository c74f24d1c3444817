-- ===== src/Proto/RingState.antt =====
-- `mod ring_state` of crates/luminal-driver-proto/src/lib.rs.
use luminal_vgd.Prelude.{ℕ}

abbrev pub active : ℕ
active = 1

abbrev pub rebuilding : ℕ
rebuilding = 2

abbrev pub dead : ℕ
dead = 3
