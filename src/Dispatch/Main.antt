-- ===== src/Dispatch/Main.antt =====
-- The arms of `dispatch` that plug monitors, `dispatch` itself and `watchdog_tick`, in
-- crates/luminal-vgd-driver/src/dispatch.rs.
use luminal_vgd.Prelude.{
  ℕ, not, Option, none, some, List, [], ◌∷◌, ◌++◌, if◌then◌else◌, ◌==◌, ok, err,
}
use luminal_vgd.Prelude.Bytes.{Bytes}
use luminal_vgd.Error.{code}
use luminal_vgd.Proto.Err
use luminal_vgd.Proto.Ioctl
use luminal_vgd.Proto.Names
use luminal_vgd.Edid.{EdidParams}
use luminal_vgd.Permanent
use luminal_vgd.Persist.{read_config}
use luminal_vgd.Session.State.{Monitor}
use luminal_vgd.Session.Create.{create}
use luminal_vgd.Session.Removal.{tick}
use luminal_vgd.Dispatch.State.{
  DeviceState, HandleCtx, Effect, unplug_monitor, Outcome, refuse_buffer, finish, create_reply,
  result_code, unknown_code, plug_effect, persist_effect, ring_slots, table_cap,
}
use luminal_vgd.Dispatch.Wire.{read_req, read_create_request}
use luminal_vgd.Dispatch.Pool.{apply_pool}
use luminal_vgd.Dispatch.Handlers.{
  on_handshake, blank_create_reply, on_ping, on_destroy, on_query_lease, on_set_render_adapter,
  on_query_pool, on_get_status,
}
use luminal_vgd.Dispatch.Updates.{on_update_modes}

-- The effects of a sweep that removed these monitors.
unfoldable pub unplug_all : List Monitor → List Effect
unplug_all [] = []
unplug_all (m ∷ ms) = unplug_monitor m.session_id ∷ unplug_all ms

abbrev pub with_snapshot : DeviceState → List Effect → List Effect
with_snapshot dev [] = []
with_snapshot dev (e ∷ es) = (e ∷ es) ++ persist_effect dev ∷ []

unfoldable pub watchdog_tick : DeviceState → ℕ → Option (DeviceState × List Effect)
watchdog_tick dev now_ms = elim (tick dev.table now_ms) [
  | none ↦ none
  | some r ↦
      let dev' : DeviceState = record dev { table = r.1 } in
      some (dev', with_snapshot dev' (unplug_all r.0))
]

module _ (generate : EdidParams → Bytes) where
  unfoldable pub on_create : DeviceState → HandleCtx → ℕ → Bytes → ℕ → Option Outcome
  on_create dev handle now_ms input out_len = elim (read_create_request input) [
    | none ↦ some (refuse_buffer dev handle)
    | some req ↦
        if not handle.handshaken
        then some (
            finish dev handle out_len (create_reply (blank_create_reply req Err.not_handshaken)) [])
        else let slots = ring_slots dev in
          let made = create dev.table now_ms req dev.cfg.caps dev.adapters dev.preferred_adapter in
          let dev' : DeviceState = record dev { table = made.1 } in
          elim made.0 [
            | err e ↦
                some
                  (finish dev' handle out_len (create_reply (blank_create_reply req (code e))) [])
            | ok m ↦ elim (plug_effect generate m slots) [
              | none ↦ none
              | some plug ↦ some (
                  finish dev' handle out_len
                    (create_reply (record (blank_create_reply req Err.ok) {
                      display_id = m.display_id;
                      ring_slots = slots;
                      connector_index = m.connector_index;
                      ring_section_name = Names.ring_section_name req.session_id;
                    }))
                    (plug ∷ persist_effect dev' ∷ []))
            ]
          ]
  ]

  unfoldable pub on_set_pool : DeviceState → HandleCtx → ℕ → Bytes → ℕ → Option Outcome
  on_set_pool dev handle now_ms input out_len = elim (read_req 96 read_config input) [
    | none ↦ some (refuse_buffer dev handle)
    | some req ↦
        if not handle.handshaken
        then some (finish dev handle out_len (result_code Err.not_handshaken) [])
        else elim (Permanent.validate req dev.cfg.caps (table_cap dev)) [
          | err e ↦ some (finish dev handle out_len (result_code (code e)) [])
          | ok u ↦ elim (apply_pool generate dev now_ms req) [
            | none ↦ none
            | some r ↦
                some (finish r.0 handle out_len (result_code r.2) (r.1 ++ persist_effect r.0 ∷ []))
          ]
        ]
  ]

  -- `commit_token` is what `modepush::committed_token()` reads.
  unfoldable pub dispatch : DeviceState → HandleCtx → ℕ → ℕ → ℕ → Bytes → ℕ → Option Outcome
  dispatch dev handle commit_token now_ms ioctl input out_len =
      if ioctl == Ioctl.ioctl_handshake
      then some (on_handshake dev handle input out_len)
      else if ioctl == Ioctl.ioctl_create_monitor
      then on_create dev handle now_ms input out_len
      else if ioctl == Ioctl.ioctl_destroy_monitor
      then some (on_destroy dev handle input out_len)
      else if ioctl == Ioctl.ioctl_update_modes
      then on_update_modes dev handle commit_token input out_len
      else if ioctl == Ioctl.ioctl_ping
      then some (on_ping dev handle now_ms input out_len)
      else if ioctl == Ioctl.ioctl_query_lease
      then some (on_query_lease dev handle now_ms input out_len)
      else if ioctl == Ioctl.ioctl_set_render_adapter
      then some (on_set_render_adapter dev handle input out_len)
      else if ioctl == Ioctl.ioctl_set_permanent_pool
      then on_set_pool dev handle now_ms input out_len
      else if ioctl == Ioctl.ioctl_query_permanent_pool
      then some (on_query_pool dev handle out_len)
      else if ioctl == Ioctl.ioctl_get_status
      then on_get_status dev handle now_ms out_len
      else some (record {
        dev = dev;
        handle = handle;
        result = record { status = unknown_code; bytes_written = 0; effects = [] };
        reply = none;
      })
