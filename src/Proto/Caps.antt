-- ===== src/Proto/Caps.antt =====
-- `mod caps` of crates/luminal-driver-proto/src/lib.rs.
use luminal_vgd.Prelude.{ℕ}

abbrev pub hdr10 : ℕ
hdr10 = 1

abbrev pub hdr12_bit : ℕ
hdr12_bit = 2

abbrev pub sdr10_bit : ℕ
sdr10_bit = 4
