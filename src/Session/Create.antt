-- ===== src/Session/Create.antt =====
-- Creating monitors, in crates/luminal-vgd-core/src/session.rs.
use luminal_vgd.Prelude.{
  ℕ, ◌%◌, ◌^◌, Bool, true, false, not, ◌&&◌, ◌||◌, Option, none, some, List, [], ◌∷◌, leb, ◌==◌,
  if◌then◌else◌, nat_eq, contains, length, ok, err, ◌>>=◌, ◌>>◌, refuse_if, is_some, bit_and,
}
use luminal_vgd.Prelude.Int.{pos}
use luminal_vgd.Prelude.Map.{lookup, insert, values}
use luminal_vgd.Error.{Fallible, bad_mode, duplicate_session, max_monitors, identity_in_use}
use luminal_vgd.Proto.{CreateMonitorRequest}
use luminal_vgd.Proto.CreateFlags
use luminal_vgd.Proto.RingState
use luminal_vgd.Adapter.{AdapterInfo, select_adapter}
use luminal_vgd.Modes.{Mode, validate_list}
use luminal_vgd.Identity.{
  ConnectorTable, acquire, ephemeral_display_id, ephemeral_display_id_base, is_permanent_display_id,
  permanent_product_code, temporary_product_code, serial_from_display_id,
}
use luminal_vgd.Session.State.{Monitor, SessionTable}
use luminal_vgd.Session.Lease.{effective_lease_timeout}

abbrev pub is_ok : Fallible ℕ → Bool
is_ok (ok a) = true
is_ok (err e) = false

-- `.values().map(|m| m.display_id)`
unfoldable pub display_ids : List Monitor → List ℕ
display_ids [] = []
display_ids (m ∷ ms) = m.display_id ∷ display_ids ms

unfoldable pub is_ephemeral : CreateMonitorRequest → Bool
is_ephemeral req =
    req.display_id == 0 || not (bit_and req.flags CreateFlags.ephemeral_identity == 0)

unfoldable pub identity_of : CreateMonitorRequest → ℕ
identity_of req = if is_ephemeral req then ephemeral_display_id req.session_id else req.display_id

unfoldable pub choose_adapter : List AdapterInfo → ℕ → ℕ → Fallible ℕ
choose_adapter adapters requested preferred =
    if not (requested == 0)
    then select_adapter adapters requested
    else if not (preferred == 0) && is_ok (select_adapter adapters preferred)
    then ok preferred
    else select_adapter adapters 0

-- What `create_trusted` has resolved before it asks for a connector.
pub record Admitted : Type 0 where
  pub modes : List Mode
  pub adapter_luid : ℕ

-- The checks of `create_trusted` up to there: none of them changes the table.
unfoldable pub admit :
    SessionTable → CreateMonitorRequest → ℕ → List AdapterInfo → ℕ → Fallible Admitted
admit t req drv_caps adapters preferred_adapter = do
  refuse_if (req.session_id == 0) bad_mode
  refuse_if (is_some (lookup req.session_id t.monitors)) duplicate_session
  refuse_if (leb t.max_monitors (length t.monitors % 2 ^ 32)) max_monitors
  refuse_if (contains (display_ids (values t.monitors)) (identity_of req)) identity_in_use
  modes ← validate_list req.modes req.mode_count req.bit_depth req.hdr drv_caps
  adapter_luid ← choose_adapter adapters req.adapter_luid preferred_adapter
  ok (record { modes = modes; adapter_luid = adapter_luid })

unfoldable pub monitor_of : SessionTable → ℕ → CreateMonitorRequest → Admitted → ℕ → Monitor
monitor_of t now_ms req a connector_index = record {
  session_id = req.session_id;
  display_id = identity_of req;
  ephemeral_identity = is_ephemeral req;
  connector_index = connector_index;
  edid_serial =
      if not (req.edid_serial == 0)
      then req.edid_serial
      else serial_from_display_id (identity_of req);
  product_code =
      if is_permanent_display_id (identity_of req)
      then permanent_product_code (identity_of req % 2 ^ 32)
      else temporary_product_code connector_index;
  modes = a.modes;
  target_modes = a.modes;
  pending_targets = none;
  blocked = none;
  settled_seq = t.update_seq;
  adapter_luid = a.adapter_luid;
  physical_width_mm = req.physical_width_mm;
  physical_height_mm = req.physical_height_mm;
  max_nits = req.max_nits;
  friendly_name = req.friendly_name;
  flags = req.flags;
  lease_timeout_ms = effective_lease_timeout req.lease_timeout_ms t.watchdog_secs;
  created_ms = now_ms;
  last_ping_ms = now_ms;
  ring_generation = 1;
  ring_state = RingState.rebuilding;
  latest_sequence = 0;
  frames_published = 0;
  frames_dropped = 0;
  last_error = pos 0;
}

-- The rest of `create_trusted`, after `acquire` has answered.
unfoldable pub plug :
    SessionTable
    → ℕ
    → CreateMonitorRequest
    → Admitted
    → Option ℕ × ConnectorTable
    → Fallible Monitor × SessionTable
plug t now_ms req a (none, connectors) = (err max_monitors, record t { connectors = connectors })
plug t now_ms req a (some c, connectors) =
    let m = monitor_of t now_ms req a c in
    (ok m, record t { connectors = connectors; monitors = insert req.session_id m t.monitors })

unfoldable pub create_trusted :
    SessionTable
    → ℕ
    → CreateMonitorRequest
    → ℕ
    → List AdapterInfo
    → ℕ
    → Fallible Monitor × SessionTable
create_trusted t now_ms req drv_caps adapters preferred_adapter =
    elim (admit t req drv_caps adapters preferred_adapter) [
      | err e ↦ (err e, t)
      | ok a ↦
          plug t now_ms req a
            (acquire t.connectors (identity_of req) (display_ids (values t.monitors)))
    ]

unfoldable pub create :
    SessionTable
    → ℕ
    → CreateMonitorRequest
    → ℕ
    → List AdapterInfo
    → ℕ
    → Fallible Monitor × SessionTable
create t now_ms req drv_caps adapters preferred_adapter =
    if leb ephemeral_display_id_base req.display_id || is_permanent_display_id req.display_id
    then (err identity_in_use, t)
    else create_trusted t now_ms req drv_caps adapters preferred_adapter
