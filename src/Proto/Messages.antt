-- ===== src/Proto/Messages.antt =====
-- The requests and replies of crates/luminal-driver-proto/src/lib.rs that the dispatcher reads and
-- writes.
use luminal_vgd.Prelude.{
  ℕ, Bool, not, ◌&&◌, Option, none, some, List, ◌==◌, get_elem?, set, replicate, bit_and, bit_or,
}
use luminal_vgd.Prelude.Int.{ℤ, pos}
use luminal_vgd.Proto.{ModeSpec, PermanentPoolConfig, u32_max}
use luminal_vgd.Proto.UpdateStatus
use luminal_vgd.Proto.Err

abbrev pub proto_version_major : ℕ
proto_version_major = 0

abbrev pub proto_version_minor : ℕ
proto_version_minor = 10

pub record HandshakeRequest : Type 0 where
  pub host_proto_major : ℕ
  pub host_proto_minor : ℕ

pub record HandshakeReply : Type 0 where
  pub driver_proto_major : ℕ
  pub driver_proto_minor : ℕ
  pub driver_build : ℕ
  pub caps : ℕ
  pub max_monitors : ℕ
  pub watchdog_secs : ℕ

pub record CreateMonitorReply : Type 0 where
  pub session_id : ℕ
  pub display_id : ℕ
  pub result : ℤ
  pub ring_slots : ℕ
  pub connector_index : ℕ
  pub reserved : ℕ
  pub ring_section_name : List ℕ

pub record DestroyMonitorRequest : Type 0 where
  pub session_id : ℕ

pub record UpdateModesRequest : Type 0 where
  pub session_id : ℕ
  pub flags : ℕ
  pub mode_count : ℕ
  pub modes : List ModeSpec
  pub reserved : List ℕ

pub record UpdateModesReply : Type 0 where
  pub session_id : ℕ
  pub result : ℤ
  pub mode_count : ℕ
  pub reserved : List ℕ

pub record PingRequest : Type 0 where
  pub session_id : ℕ

pub record SetRenderAdapterRequest : Type 0 where
  pub adapter_luid : ℕ

pub record QueryLeaseRequest : Type 0 where
  pub session_id : ℕ

pub record QueryLeaseReply : Type 0 where
  pub session_id : ℕ
  pub display_id : ℕ
  pub remaining_ms : ℕ
  pub connector_index : ℕ
  pub result : ℤ
  pub reserved : ℕ

pub record QueryPermanentPoolReply : Type 0 where
  pub config : PermanentPoolConfig
  pub result : ℤ
  pub reserved : ℕ

pub record MonitorStatus : Type 0 where
  pub session_id : ℕ
  pub display_id : ℕ
  pub adapter_luid : ℕ
  pub latest_sequence : ℕ
  pub frames_published : ℕ
  pub frames_dropped : ℕ
  pub last_ping_ms : ℕ
  pub width : ℕ
  pub height : ℕ
  pub refresh_millihz : ℕ
  pub bit_depth : ℕ
  pub hdr : ℕ
  pub ring_generation : ℕ
  pub ring_state : ℕ
  pub last_error : ℤ
  pub connector_index : ℕ
  pub lease_timeout_ms : ℕ

pub record GetStatusReply : Type 0 where
  pub uptime_ms : ℕ
  pub driver_build : ℕ
  pub proto_major : ℕ
  pub proto_minor : ℕ
  pub caps : ℕ
  pub max_monitors : ℕ
  pub watchdog_secs : ℕ
  pub monitor_count : ℕ
  pub monitors : List MonitorStatus

abbrev pub create_monitor_request_size_v3 : ℕ
create_monitor_request_size_v3 = 168

abbrev pub update_modes_request_size_v5 : ℕ
update_modes_request_size_v5 = 80

abbrev pub no_rejected_index : ℕ
no_rejected_index = u32_max

abbrev pub no_mode_index : ℕ
no_mode_index = u32_max

abbrev pub idx_accepted : ℕ
idx_accepted = 0

abbrev pub idx_requested : ℕ
idx_requested = 1

abbrev pub idx_flags : ℕ
idx_flags = 2

abbrev pub idx_rejected : ℕ
idx_rejected = 3

abbrev pub idx_first_rejected : ℕ
idx_first_rejected = 4

abbrev pub idx_blocking : ℕ
idx_blocking = 5

-- `UpdateModesReply::new`
unfoldable pub new_update_reply : ℕ → UpdateModesReply
new_update_reply session_id = record {
  session_id = session_id;
  result = Err.ok;
  mode_count = 0;
  reserved =
      set (set (replicate 6 0) idx_first_rejected no_rejected_index) idx_blocking no_mode_index;
}

-- `self.reserved[i]`: the array has six words, and every index above is one of them.
abbrev pub word : UpdateModesReply → ℕ → ℕ
word r i = elim (get_elem? r.reserved i) [ none ↦ 0 | some v ↦ v ]

unfoldable pub accepted : UpdateModesReply → ℕ
accepted r = word r idx_accepted

unfoldable pub rejected : UpdateModesReply → ℕ
rejected r = word r idx_rejected

unfoldable pub first_rejected : UpdateModesReply → ℕ
first_rejected r = word r idx_first_rejected

unfoldable pub requested : UpdateModesReply → ℕ
requested r = word r idx_requested

unfoldable pub reply_flags : UpdateModesReply → ℕ
reply_flags r = word r idx_flags

unfoldable pub is_pending : UpdateModesReply → Bool
is_pending r = not (bit_and (reply_flags r) UpdateStatus.pending == 0)

unfoldable pub is_partial : UpdateModesReply → Bool
is_partial r = not (bit_and (reply_flags r) UpdateStatus.partial == 0)

unfoldable pub is_blocked : UpdateModesReply → Bool
is_blocked r = not (bit_and (reply_flags r) UpdateStatus.blocked == 0)

unfoldable pub blocking_mode_idx : UpdateModesReply → ℕ
blocking_mode_idx r = word r idx_blocking

unfoldable pub worth_retrying : UpdateModesReply → Bool
worth_retrying r = not (is_blocked r)

abbrev pub is_ok_code : ℤ → Bool
is_ok_code (pos n) = n == 0
is_ok_code _ = Bool.false

unfoldable pub fully_in_force : UpdateModesReply → Bool
fully_in_force r = is_ok_code r.result && not (is_pending r) && not (is_partial r)

unfoldable pub set_detail : ℕ → ℕ → ℕ → UpdateModesReply → UpdateModesReply
set_detail accepted requested flags r = record r {
  reserved =
      set (set (set r.reserved idx_accepted accepted) idx_requested requested) idx_flags flags;
}

abbrev pub unwrap_or : ℕ → Option ℕ → ℕ
unwrap_or d none = d
unwrap_or d (some v) = v

unfoldable pub set_rejected : ℕ → Option ℕ → UpdateModesReply → UpdateModesReply
set_rejected rejected first_rejected r = record r {
  reserved =
      set (set r.reserved idx_rejected rejected) idx_first_rejected
        (unwrap_or no_rejected_index first_rejected);
}

unfoldable pub set_blocked : ℕ → UpdateModesReply → UpdateModesReply
set_blocked blocking_mode_idx r = record r {
  reserved =
      set (set r.reserved idx_flags (bit_or (word r idx_flags) UpdateStatus.blocked)) idx_blocking
        blocking_mode_idx;
}
