-- ===== src/Proto/Ioctl.antt =====
-- `mod ioctl` of crates/luminal-driver-proto/src/lib.rs.
use luminal_vgd.Prelude.{ℕ, ◌*◌, ◌%◌, ◌^◌, bit_or}

abbrev pub file_device_unknown : ℕ
file_device_unknown = 0x22

abbrev pub method_buffered : ℕ
method_buffered = 0

abbrev pub file_any_access : ℕ
file_any_access = 0

-- `<<` on a `u32` drops the bits that leave it.
abbrev pub shift_left : ℕ → ℕ → ℕ
shift_left a k = a * 2 ^ k % 2 ^ 32

abbrev pub ctl_code : ℕ → ℕ
ctl_code function =
    bit_or
      (bit_or (bit_or (shift_left file_device_unknown 16) (shift_left file_any_access 14))
        (shift_left function 2))
      method_buffered

abbrev pub fn_handshake : ℕ
fn_handshake = 0x800

abbrev pub ioctl_handshake : ℕ
ioctl_handshake = ctl_code fn_handshake

abbrev pub fn_create_monitor : ℕ
fn_create_monitor = 0x801

abbrev pub ioctl_create_monitor : ℕ
ioctl_create_monitor = ctl_code fn_create_monitor

abbrev pub fn_destroy_monitor : ℕ
fn_destroy_monitor = 0x802

abbrev pub ioctl_destroy_monitor : ℕ
ioctl_destroy_monitor = ctl_code fn_destroy_monitor

abbrev pub fn_ping : ℕ
fn_ping = 0x803

abbrev pub ioctl_ping : ℕ
ioctl_ping = ctl_code fn_ping

abbrev pub fn_get_status : ℕ
fn_get_status = 0x804

abbrev pub ioctl_get_status : ℕ
ioctl_get_status = ctl_code fn_get_status

abbrev pub fn_set_render_adapter : ℕ
fn_set_render_adapter = 0x805

abbrev pub ioctl_set_render_adapter : ℕ
ioctl_set_render_adapter = ctl_code fn_set_render_adapter

abbrev pub fn_query_lease : ℕ
fn_query_lease = 0x806

abbrev pub ioctl_query_lease : ℕ
ioctl_query_lease = ctl_code fn_query_lease

abbrev pub fn_set_permanent_pool : ℕ
fn_set_permanent_pool = 0x807

abbrev pub ioctl_set_permanent_pool : ℕ
ioctl_set_permanent_pool = ctl_code fn_set_permanent_pool

abbrev pub fn_query_permanent_pool : ℕ
fn_query_permanent_pool = 0x808

abbrev pub ioctl_query_permanent_pool : ℕ
ioctl_query_permanent_pool = ctl_code fn_query_permanent_pool

abbrev pub fn_update_modes : ℕ
fn_update_modes = 0x809

abbrev pub ioctl_update_modes : ℕ
ioctl_update_modes = ctl_code fn_update_modes
