-- ===== src/Session/Status.antt =====
-- The read-only replies of the session table in crates/luminal-vgd-core/src/session.rs.
use luminal_vgd.Prelude.{
  ℕ, ◌+◌, ◌%◌, ◌^◌, Option, none, some, List, [], ◌∷◌, take, put_at, replicate,
}
use luminal_vgd.Prelude.Int.{pos}
use luminal_vgd.Prelude.Map.{values}
use luminal_vgd.Proto.{as_raw, abi_max_monitors}
use luminal_vgd.Proto.Messages.{
  HandshakeReply, MonitorStatus, GetStatusReply, proto_version_major, proto_version_minor,
}
use luminal_vgd.Modes.{Mode}
use luminal_vgd.Identity
use luminal_vgd.Session.State.{Monitor, SessionTable}
use luminal_vgd.Session.Update.{hdr_raw}

-- `&self.modes[0]`, which panics on an empty list.
abbrev pub first_mode : List Mode → Option Mode
first_mode [] = none
first_mode (m ∷ ms) = some m

unfoldable pub preferred_mode : Monitor → Option Mode
preferred_mode m = first_mode m.modes

unfoldable pub reservations : SessionTable → List (ℕ × ℕ)
reservations t = Identity.entries t.connectors

unfoldable pub handshake_reply : SessionTable → ℕ → ℕ → HandshakeReply
handshake_reply t drv_caps driver_build = record {
  driver_proto_major = proto_version_major;
  driver_proto_minor = proto_version_minor;
  driver_build = driver_build;
  caps = drv_caps;
  max_monitors = t.max_monitors;
  watchdog_secs = t.watchdog_secs;
}

unfoldable pub zero_status : MonitorStatus
zero_status = record {
  session_id = 0;
  display_id = 0;
  adapter_luid = 0;
  latest_sequence = 0;
  frames_published = 0;
  frames_dropped = 0;
  last_ping_ms = 0;
  width = 0;
  height = 0;
  refresh_millihz = 0;
  bit_depth = 0;
  hdr = 0;
  ring_generation = 0;
  ring_state = 0;
  last_error = pos 0;
  connector_index = 0;
  lease_timeout_ms = 0;
}

unfoldable pub status_of : Monitor → Mode → MonitorStatus
status_of m pref = record {
  session_id = m.session_id;
  display_id = m.display_id;
  adapter_luid = m.adapter_luid;
  latest_sequence = m.latest_sequence;
  frames_published = m.frames_published;
  frames_dropped = m.frames_dropped;
  last_ping_ms = m.last_ping_ms;
  width = pref.width;
  height = pref.height;
  refresh_millihz = pref.refresh_millihz;
  bit_depth = as_raw pref.bit_depth;
  hdr = hdr_raw pref.hdr;
  ring_generation = m.ring_generation;
  ring_state = m.ring_state;
  last_error = m.last_error;
  connector_index = m.connector_index;
  lease_timeout_ms = m.lease_timeout_ms;
}

-- The loop of `status` over the monitors, the next of which is number `i`.
unfoldable pub fill_status : GetStatusReply → ℕ → List Monitor → Option GetStatusReply
fill_status reply i [] = some reply
fill_status reply i (m ∷ ms) = elim (preferred_mode m) [
  | none ↦ none
  | some pref ↦ elim (put_at reply.monitors i (status_of m pref)) [
    | none ↦ none
    | some filled ↦
        fill_status (record reply { monitors = filled; monitor_count = (i + 1) % 2 ^ 32 }) (i + 1)
          ms
  ]
]

unfoldable pub status : SessionTable → ℕ → ℕ → ℕ → Option GetStatusReply
status t uptime_ms driver_build drv_caps =
    fill_status
      (record {
        uptime_ms = uptime_ms;
        driver_build = driver_build;
        proto_major = proto_version_major;
        proto_minor = proto_version_minor;
        caps = drv_caps;
        max_monitors = t.max_monitors;
        watchdog_secs = t.watchdog_secs;
        monitor_count = 0;
        monitors = replicate abi_max_monitors zero_status;
      })
      0 (take abi_max_monitors (values t.monitors))
