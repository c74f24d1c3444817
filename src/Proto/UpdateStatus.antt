-- ===== src/Proto/UpdateStatus.antt =====
-- `mod update_status` of crates/luminal-driver-proto/src/lib.rs.
use luminal_vgd.Prelude.{ℕ}

abbrev pub pending : ℕ
pending = 1

abbrev pub partial : ℕ
partial = 2

abbrev pub blocked : ℕ
blocked = 4
