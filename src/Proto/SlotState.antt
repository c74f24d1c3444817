-- ===== src/Proto/SlotState.antt =====
-- `mod slot_state` of crates/luminal-driver-proto/src/lib.rs.
use luminal_vgd.Prelude.{ℕ}

abbrev pub free : ℕ
free = 0

abbrev pub writing : ℕ
writing = 1

abbrev pub published : ℕ
published = 2

abbrev pub reading : ℕ
reading = 3
