-- ===== src/Dispatch/Wire.antt =====
-- How the dispatcher of crates/luminal-vgd-driver/src/dispatch.rs reads requests from untrusted
-- bytes. The `repr(C)` requests of the protocol crate have no padding, so their fields follow each
-- other; a field is little-endian, as on the machines that the driver is built for.
use luminal_vgd.Prelude.{
  ℕ, ◌-◌, Option, none, some, ◌++◌, if◌then◌else◌, ltb, length, take, replicate,
}
use luminal_vgd.Prelude.Bytes.{Bytes, Reader, pure, ◌>>=◌, times}
use luminal_vgd.Proto.{ModeSpec, CreateMonitorRequest, max_modes_per_monitor}
use luminal_vgd.Proto.Messages.{
  HandshakeRequest, DestroyMonitorRequest, UpdateModesRequest, PingRequest, SetRenderAdapterRequest,
  QueryLeaseRequest, create_monitor_request_size_v3, update_modes_request_size_v5,
}
use luminal_vgd.Persist.{read_u16, read_u32, read_u64}

unfoldable pub handshake_layout : Reader HandshakeRequest
handshake_layout = do
  major ← read_u16
  minor ← read_u16
  pure (record { host_proto_major = major; host_proto_minor = minor })

unfoldable pub mode_layout : Reader ModeSpec
mode_layout = do
  width ← read_u32
  height ← read_u32
  refresh_millihz ← read_u32
  pure (record { width = width; height = height; refresh_millihz = refresh_millihz })

unfoldable pub create_layout : Reader CreateMonitorRequest
create_layout = do
  session_id ← read_u64
  display_id ← read_u64
  adapter_luid ← read_u64
  lease_timeout_ms ← read_u32
  bit_depth ← read_u32
  hdr ← read_u32
  edid_serial ← read_u32
  flags ← read_u32
  mode_count ← read_u32
  modes ← times max_modes_per_monitor mode_layout
  physical_width_mm ← read_u32
  physical_height_mm ← read_u32
  friendly_name ← times 32 read_u16
  max_nits ← read_u32
  reserved0 ← read_u32
  pure (record {
    session_id = session_id;
    display_id = display_id;
    adapter_luid = adapter_luid;
    lease_timeout_ms = lease_timeout_ms;
    bit_depth = bit_depth;
    hdr = hdr;
    edid_serial = edid_serial;
    flags = flags;
    mode_count = mode_count;
    modes = modes;
    physical_width_mm = physical_width_mm;
    physical_height_mm = physical_height_mm;
    friendly_name = friendly_name;
    max_nits = max_nits;
    reserved0 = reserved0;
  })

unfoldable pub update_layout : Reader UpdateModesRequest
update_layout = do
  session_id ← read_u64
  flags ← read_u32
  mode_count ← read_u32
  modes ← times max_modes_per_monitor mode_layout
  reserved ← times 4 read_u32
  pure (record {
    session_id = session_id;
    flags = flags;
    mode_count = mode_count;
    modes = modes;
    reserved = reserved;
  })

unfoldable pub destroy_layout : Reader DestroyMonitorRequest
destroy_layout = do session_id ← read_u64; pure (record { session_id = session_id })

unfoldable pub ping_layout : Reader PingRequest
ping_layout = do session_id ← read_u64; pure (record { session_id = session_id })

unfoldable pub adapter_layout : Reader SetRenderAdapterRequest
adapter_layout = do adapter_luid ← read_u64; pure (record { adapter_luid = adapter_luid })

unfoldable pub lease_layout : Reader QueryLeaseRequest
lease_layout = do session_id ← read_u64; pure (record { session_id = session_id })

abbrev pub result_of {ℓ} : {A : Type ℓ} → Option (A × Bytes) → Option A
result_of none = none
result_of (some (a, rest)) = some a

-- `read_req`: a larger buffer is fine, a shorter one is refused.
unfoldable pub read_req {ℓ} : {A : Type ℓ} → ℕ → Reader A → Bytes → Option A
read_req size layout input = if ltb (length input) size then none else result_of (layout input)

-- The two readers with a legacy size: the missing tail reads as zeros.
unfoldable pub read_legacy {ℓ} : {A : Type ℓ} → ℕ → ℕ → Reader A → Bytes → Option A
read_legacy size legacy layout input = elim (read_req size layout input) [
  | some req ↦ some req
  | none ↦
      if ltb (length input) legacy
      then none
      else result_of (layout (take legacy input ++ replicate (size - legacy) 0))
]

unfoldable pub read_create_request : Bytes → Option CreateMonitorRequest
read_create_request = read_legacy 176 create_monitor_request_size_v3 create_layout

unfoldable pub read_update_modes_request : Bytes → Option UpdateModesRequest
read_update_modes_request = read_legacy 80 update_modes_request_size_v5 update_layout
