-- ===== src/Proto.antt =====
-- crates/luminal-driver-proto/src/lib.rs: the host-driver ABI, as far as the driver's core uses it.
-- Every integer is a natural number; its width is a bound where a statement needs one. A fixed-size
-- array is a list, and its length is a hypothesis where a statement needs it.
pub mod Caps
pub mod Err
pub mod CreateFlags
pub mod RingState
pub mod SlotState
pub mod Ioctl
pub mod UpdateStatus
pub mod Messages
pub mod Sections
pub mod Names
mod Depth
unfoldable pub use Depth.*
use luminal_vgd.Prelude.{ℕ, ◌-◌, ◌^◌, Bool, ◌&&◌, List, ◌==◌, leb}

abbrev pub u32_max : ℕ
u32_max = 2 ^ 32 - 1

abbrev pub abi_max_monitors : ℕ
abi_max_monitors = 16

abbrev pub abi_max_ring_slots : ℕ
abi_max_ring_slots = 8

abbrev pub max_modes_per_monitor : ℕ
max_modes_per_monitor = 4

abbrev pub max_permanent_displays : ℕ
max_permanent_displays = 4

abbrev pub default_lease_timeout_ms : ℕ
default_lease_timeout_ms = 10_000

abbrev pub min_lease_timeout_ms : ℕ
min_lease_timeout_ms = 3_000

abbrev pub max_lease_timeout_ms : ℕ
max_lease_timeout_ms = 300_000

abbrev pub lease_timeout_use_default : ℕ
lease_timeout_use_default = 0

abbrev pub lease_timeout_disabled : ℕ
lease_timeout_disabled = u32_max

unfoldable pub versions_compatible : ℕ → ℕ → ℕ → ℕ → Bool
versions_compatible host_major host_minor driver_major driver_minor =
    host_major == driver_major && leb host_minor driver_minor

pub record ModeSpec : Type 0 where
  pub width : ℕ
  pub height : ℕ
  pub refresh_millihz : ℕ

pub record CreateMonitorRequest : Type 0 where
  pub session_id : ℕ
  pub display_id : ℕ
  pub adapter_luid : ℕ
  pub lease_timeout_ms : ℕ
  pub bit_depth : ℕ
  pub hdr : ℕ
  pub edid_serial : ℕ
  pub flags : ℕ
  pub mode_count : ℕ
  pub modes : List ModeSpec
  pub physical_width_mm : ℕ
  pub physical_height_mm : ℕ
  pub friendly_name : List ℕ
  pub max_nits : ℕ
  pub reserved0 : ℕ

pub record PermanentPoolConfig : Type 0 where
  pub count : ℕ
  pub width : ℕ
  pub height : ℕ
  pub refresh_millihz : ℕ
  pub bit_depth : ℕ
  pub hdr : ℕ
  pub physical_width_mm : ℕ
  pub physical_height_mm : ℕ
  pub name : List ℕ
