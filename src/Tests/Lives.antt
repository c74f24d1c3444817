-- ===== src/Tests/Lives.antt =====
-- The first steps of a device, for crates/luminal-vgd-driver/src/dispatch.rs.
use luminal_vgd.Prelude.{some, ◌≡◌, ◌≢◌, refl, contains}
use luminal_vgd.Prelude.Bytes.{Bytes, to_le_bytes, from_le_bytes}
use luminal_vgd.Proto.Ioctl
use luminal_vgd.Persist.{read_u64}
use luminal_vgd.Proto.{depth_eq, from_raw, as_raw}
use luminal_vgd.Adapter.{select_adapter, find_luid, hardware, max_by_vram, greatest, is_greater}
use luminal_vgd.Modes.{
  validate_list, validate_from, validate, mode_eq, outside_envelope, hdr_of, check_depth,
}
use luminal_vgd.Identity
use luminal_vgd.Session.State.{new}
use luminal_vgd.Session.Create.{
  create, create_trusted, admit, plug, monitor_of, identity_of, is_ephemeral, choose_adapter,
  display_ids,
}
use luminal_vgd.Session.Invariant.{IsValid}
use luminal_vgd.Dispatch.State.{DeviceState, Outcome, completed, bad_buffer, finish, size_of}
use luminal_vgd.Dispatch.Wire.{read_req}
use luminal_vgd.Dispatch.Main.{dispatch}
use luminal_vgd.Dispatch.Mirror.{after_all, Mirrors}
use luminal_vgd.Prelude.{none, ◌++◌, replicate}
use luminal_vgd.Persist.{read_u32}
use luminal_vgd.Prelude.Bytes.{times}
use luminal_vgd.Dispatch.Wire.{read_legacy, mode_layout}
use luminal_vgd.Prelude.{arith, ◌∙◌, ◌+◌, ◌^◌, ◌<◌, sym}
use luminal_vgd.Persist.{read_u16}
use luminal_vgd.Session.State.{restore_reservations}
use luminal_vgd.Session.Status.{preferred_mode}
use luminal_vgd.Dispatch.State.{set_adapters, new_device, plug_effect, monitor_edid}
use luminal_vgd.Dispatch.Wire.{read_create_request, create_layout}
use luminal_vgd.Dispatch.Main.{on_create}
use luminal_vgd.Dispatch.Life.{Lives, added, adapters_changed, requested, nothing, Lives-sound}
use luminal_vgd.Tests.Sessions.{adapters}
use luminal_vgd.Tests.Devices.{blank, device, opened, or_refused}

-- A device that starts without stored state and learns of one adapter.
abbrev fresh : DeviceState
fresh = set_adapters (new_device device.cfg none) adapters

-- The request to create session 7 with two modes
abbrev wanted : Bytes
wanted =
    to_le_bytes 8 7
    ++ (to_le_bytes 8 0
        ++ (to_le_bytes 8 0
            ++ (to_le_bytes 4 5_000
                ++ (to_le_bytes 4 8
                    ++ (to_le_bytes 4 0
                        ++ (to_le_bytes 4 1
                            ++ (to_le_bytes 4 0
                                ++ (to_le_bytes 4 2
                                    ++ (to_le_bytes 4 1920
                                        ++ (to_le_bytes 4 1080
                                            ++ (to_le_bytes 4 60_000
                                                ++ (to_le_bytes 4 1280
                                                    ++ (to_le_bytes 4 720
                                                        ++ (to_le_bytes 4 60_000
                                                            ++ replicate 104 0))))))))))))))

abbrev created : Outcome
created = or_refused (dispatch blank fresh opened 0 100 Ioctl.ioctl_create_monitor wanted 160)

is_created : dispatch blank fresh opened 0 100 Ioctl.ioctl_create_monitor wanted 160 ≡ some created
unfolding dispatch on_create read_create_request read_legacy read_req create_layout mode_layout
    read_u64 read_u32 read_u16 to_le_bytes from_le_bytes times set_adapters new_device
    restore_reservations plug_effect monitor_edid preferred_mode create create_trusted admit plug
    monitor_of new identity_of is_ephemeral choose_adapter display_ids select_adapter find_luid
    hardware max_by_vram greatest is_greater validate_list validate_from validate outside_envelope
    hdr_of check_depth mode_eq depth_eq from_raw as_raw Identity.new Identity.restore
    Identity.acquire Identity.claim Identity.find_free Identity.is_permanent_display_id
    Identity.ephemeral_display_id contains Identity.reserve
is_created = refl

is_completed : created.result.status ≡ completed
unfolding dispatch on_create read_create_request read_legacy read_req create_layout mode_layout
    read_u64 read_u32 read_u16 to_le_bytes from_le_bytes times set_adapters new_device
    restore_reservations plug_effect monitor_edid preferred_mode finish size_of create
    create_trusted admit plug monitor_of new identity_of is_ephemeral choose_adapter display_ids
    select_adapter find_luid hardware max_by_vram greatest is_greater validate_list validate_from
    validate outside_envelope hdr_of check_depth mode_eq depth_eq from_raw as_raw Identity.new
    Identity.restore Identity.acquire Identity.claim Identity.find_free
    Identity.is_permanent_display_id Identity.ephemeral_display_id contains Identity.reserve
is_completed = refl

no_update_issued : fresh.table.update_seq + 1 < 2 ^ 64
unfolding set_adapters new_device restore_reservations new
no_update_issued = omega arith

is_served : created.result.status ≢ bad_buffer
is_served q = let never : completed ≡ bad_buffer = sym is_completed ∙ q in cc

life : Lives blank created.dev (after_all nothing created.result.effects)
life =
    requested fresh nothing opened 0 100 Ioctl.ioctl_create_monitor wanted 160 created
      (adapters_changed (new_device device.cfg none) nothing adapters (added device.cfg none))
      no_update_issued is_created is_served

Lives-sound_example :
    IsValid created.dev.table × Mirrors (after_all nothing created.result.effects) created.dev.table
Lives-sound_example = Lives-sound blank created.dev (after_all nothing created.result.effects) life
