-- ===== src/Dispatch/State.antt =====
-- The device state, effects and results of crates/luminal-vgd-driver/src/dispatch.rs.
use luminal_vgd.Prelude.{
  ℕ, Bool, Option, none, some, List, [], if◌then◌else◌, ltb, min, max, replicate, bit_and, bit_or,
}
use luminal_vgd.Prelude.Bytes.{Bytes}
use luminal_vgd.Prelude.Int.{ℤ}
use luminal_vgd.Proto.{PermanentPoolConfig, abi_max_monitors, abi_max_ring_slots}
use luminal_vgd.Proto.CreateFlags
use luminal_vgd.Proto.Messages.{
  HandshakeReply, CreateMonitorReply, UpdateModesReply, QueryLeaseReply, QueryPermanentPoolReply,
  GetStatusReply,
}
use luminal_vgd.Adapter.{AdapterInfo}
use luminal_vgd.Modes.{Mode}
use luminal_vgd.Persist.{PersistedState, serialize, parse}
use luminal_vgd.Session.State.{Monitor, SessionTable, restore_reservations}
use luminal_vgd.Session.State
use luminal_vgd.Session.Removal.{destroy_all}
use luminal_vgd.Session.Status.{preferred_mode, reservations}
use luminal_vgd.Edid.{EdidParams}

abbrev pub tdr_duck_device : ℕ
tdr_duck_device = 0

abbrev pub tdr_duck_display : ℕ
tdr_duck_display = 1

pub record DriverConfig : Type 0 where
  pub caps : ℕ
  pub driver_build : ℕ
  pub max_monitors : ℕ
  pub watchdog_secs : ℕ
  pub ring_slots : ℕ
  pub tdr_duck_mode : ℕ

pub record DeviceState : Type 0 where
  pub table : SessionTable
  pub cfg : DriverConfig
  pub adapters : List AdapterInfo
  pub preferred_adapter : ℕ
  pub pool : PermanentPoolConfig

pub record HandleCtx : Type 0 where
  pub handshaken : Bool
  pub authorized : Bool

-- `Effect::PlugMonitor`
pub record Plug : Type 0 where
  pub session_id : ℕ
  pub display_id : ℕ
  pub connector_index : ℕ
  pub modes : List Mode
  pub targets : List Mode
  pub adapter_luid : ℕ
  pub ring_slots : ℕ
  pub transport_flags : ℕ
  pub edid : Bytes

pub data Effect : Type 0 where
  plug_monitor : Plug → Effect
  unplug_monitor : ℕ → Effect
  update_targets : ℕ → ℕ → List Mode → Effect
  persist_state : Bytes → Effect

pub data Status : Type 0 where
  completed bad_buffer unknown_code : Status

pub record DispatchResult : Type 0 where
  pub status : Status
  pub bytes_written : ℕ
  pub effects : List Effect

-- What `write_reply` puts into the output buffer.
pub data Reply : Type 0 where
  handshake_reply : HandshakeReply → Reply
  create_reply : CreateMonitorReply → Reply
  result_code : ℤ → Reply
  update_reply : UpdateModesReply → Reply
  lease_reply : QueryLeaseReply → Reply
  pool_reply : QueryPermanentPoolReply → Reply
  status_reply : GetStatusReply → Reply

-- `size_of` of each reply, as the assertions of the protocol crate fix it
unfoldable pub size_of : Reply → ℕ
size_of (handshake_reply r) = 20
size_of (create_reply r) = 160
size_of (result_code r) = 4
size_of (update_reply r) = 40
size_of (lease_reply r) = 32
size_of (pool_reply r) = 104
size_of (status_reply r) = 1568

-- What a call of `dispatch` leaves: `&mut dev`, `&mut handle`, the result and the output buffer.
pub record Outcome : Type 0 where
  pub dev : DeviceState
  pub handle : HandleCtx
  pub result : DispatchResult
  pub reply : Option Reply

unfoldable pub bad_buffer_result : DispatchResult
bad_buffer_result = record { status = bad_buffer; bytes_written = 0; effects = [] }

-- An early return with `DispatchResult::bad_buffer()`.
unfoldable pub refuse_buffer : DeviceState → HandleCtx → Outcome
refuse_buffer dev handle = record {
  dev = dev;
  handle = handle;
  result = bad_buffer_result;
  reply = none;
}

-- `write_reply` and the `match` on its answer, in an output buffer of `out_len` bytes.
unfoldable pub finish : DeviceState → HandleCtx → ℕ → Reply → List Effect → Outcome
finish dev handle out_len reply effects =
    if ltb out_len (size_of reply) then refuse_buffer dev handle else record {
      dev = dev;
      handle = handle;
      result = record { status = completed; bytes_written = size_of reply; effects = effects };
      reply = some reply;
    }

unfoldable pub empty_pool : PermanentPoolConfig
empty_pool = record {
  count = 0;
  width = 0;
  height = 0;
  refresh_millihz = 0;
  bit_depth = 0;
  hdr = 0;
  physical_width_mm = 0;
  physical_height_mm = 0;
  name = replicate 32 0;
}

-- `unwrap_or_default`
abbrev pub or_default : Option PersistedState → PersistedState
or_default none = record { reservations = []; pool = none }
or_default (some s) = s

abbrev pub and_then_parse : Option Bytes → Option PersistedState
and_then_parse none = none
and_then_parse (some blob) = parse blob

abbrev pub pool_or_empty : Option PermanentPoolConfig → PermanentPoolConfig
pool_or_empty none = empty_pool
pool_or_empty (some p) = p

-- `DeviceState::new`
unfoldable pub new_device : DriverConfig → Option Bytes → DeviceState
new_device cfg persisted =
    let restored = or_default (and_then_parse persisted) in
    record {
      table =
          restore_reservations (State.new cfg.max_monitors cfg.watchdog_secs) restored.reservations;
      cfg = cfg;
      adapters = [];
      preferred_adapter = 0;
      pool = pool_or_empty restored.pool;
    }

unfoldable pub set_adapters : DeviceState → List AdapterInfo → DeviceState
set_adapters dev adapters = record dev { adapters = adapters }

unfoldable pub device_teardown_reset : DeviceState → DeviceState
device_teardown_reset dev = record dev { table = destroy_all dev.table }

unfoldable pub table_cap : DeviceState → ℕ
table_cap dev = min dev.cfg.max_monitors abi_max_monitors

-- `clamp(2, ABI_MAX_RING_SLOTS)`
unfoldable pub ring_slots : DeviceState → ℕ
ring_slots dev = min (max dev.cfg.ring_slots 2) abi_max_ring_slots

unfoldable pub persist_effect : DeviceState → Effect
persist_effect dev = persist_state (
    serialize (record {
      reservations = reservations dev.table;
      pool = if ltb 0 dev.pool.count then some dev.pool else none;
    }))

-- With the EDID generator of the core crate as an argument. A monitor without modes panics.
module _ (generate : EdidParams → Bytes) where
  unfoldable pub monitor_edid : Monitor → Option Bytes
  monitor_edid m = elim (preferred_mode m) [
    | none ↦ none
    | some mode ↦ some (
        generate (record {
          mode = mode;
          friendly_name = m.friendly_name;
          serial = m.edid_serial;
          product_code = m.product_code;
          physical_width_mm = m.physical_width_mm;
          physical_height_mm = m.physical_height_mm;
          max_nits = m.max_nits;
        }))
  ]

  unfoldable pub plug_effect : Monitor → ℕ → Option Effect
  plug_effect m slots = elim (monitor_edid m) [
    | none ↦ none
    | some edid ↦ some (
        plug_monitor (record {
          session_id = m.session_id;
          display_id = m.display_id;
          connector_index = m.connector_index;
          modes = m.modes;
          targets = m.target_modes;
          adapter_luid = m.adapter_luid;
          ring_slots = slots;
          transport_flags =
              bit_and m.flags
                (bit_or CreateFlags.d3d12_fence_transport CreateFlags.fence_transport_required);
          edid = edid;
        }))
  ]
