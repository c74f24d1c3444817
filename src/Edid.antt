-- ===== src/Edid.antt =====
-- crates/luminal-vgd-core/src/edid.rs: the monitor descriptions.
pub mod Timing
pub mod Text
pub mod Blocks
use luminal_vgd.Prelude.{ℕ, List}
use luminal_vgd.Modes.{Mode}

pub record EdidParams : Type 0 where
  pub mode : Mode
  pub friendly_name : List ℕ
  pub serial : ℕ
  pub product_code : ℕ
  pub physical_width_mm : ℕ
  pub physical_height_mm : ℕ
  pub max_nits : ℕ
