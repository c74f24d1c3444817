-- ===== src/Tests/Devices.antt =====
-- A device with one session, for crates/luminal-vgd-driver/src/dispatch.rs.
use luminal_vgd.Prelude.{ℕ, Bool, true, false, some, List, [], ◌∷◌, ◌≡◌, ◌≢◌, refl, contains}
use luminal_vgd.Prelude.Bytes.{Bytes, to_le_bytes, from_le_bytes}
use luminal_vgd.Proto.Ioctl
use luminal_vgd.Proto.Err
use luminal_vgd.Persist.{read_u64}
use luminal_vgd.Edid.{EdidParams}
use luminal_vgd.Proto.{depth_eq, from_raw, as_raw}
use luminal_vgd.Adapter.{select_adapter, find_luid, hardware, max_by_vram, greatest, is_greater}
use luminal_vgd.Modes.{
  validate_list, validate_from, validate, mode_eq, outside_envelope, hdr_of, check_depth,
}
use luminal_vgd.Identity
use luminal_vgd.Session.State.{new}
use luminal_vgd.Session.Create.{
  create, create_trusted, admit, plug, monitor_of, identity_of, is_ephemeral, choose_adapter,
  display_ids,
}
use luminal_vgd.Session.Removal.{destroy, take_out}
use luminal_vgd.Session.Invariant.{IsValid}
use luminal_vgd.Session.Live.{is_live}
use luminal_vgd.Dispatch.State.{
  DeviceState, HandleCtx, Effect, unplug_monitor, Outcome, completed, bad_buffer, result_code,
  empty_pool, finish, size_of, persist_effect,
}
use luminal_vgd.Dispatch.Wire.{read_req, destroy_layout}
use luminal_vgd.Dispatch.Handlers.{on_destroy}
use luminal_vgd.Dispatch.Main.{dispatch, watchdog_tick}
use luminal_vgd.Dispatch.Mirror.{after_all, Mirrors}
use luminal_vgd.Dispatch.Gate.{dispatch-before_handshake}
use luminal_vgd.Dispatch.Plugged.{dispatch-Mirrors}
use luminal_vgd.Dispatch.Sweep.{watchdog_tick-Mirrors}
use luminal_vgd.Prelude.{Option, none, ◌++◌, inl, In, replicate}
use luminal_vgd.Persist.{read_u32}
use luminal_vgd.Prelude.Bytes.{times}
use luminal_vgd.Dispatch.State.{refuse_buffer, bad_buffer_result, update_targets}
use luminal_vgd.Dispatch.Wire.{read_update_modes_request, read_legacy, update_layout, mode_layout}
use luminal_vgd.Dispatch.Updates.{
  on_update_modes, run_update, try_update, bad_count, answer_update, conclude_update,
}
use luminal_vgd.Session.State.{target_base}
use luminal_vgd.Session.Update.{
  update_modes, update_monitor, expire_block, decide, queue, unchanged, block_for, modes_eq,
}
use luminal_vgd.Modes.{is_empty, select_targets, select_from, select_step}
use luminal_vgd.Dispatch.Parked.{Parks, on_update_modes-pushed, on_update_modes-refused}
use luminal_vgd.Tests.Sessions.{hd_mode}
use luminal_vgd.Tests.Sessions.{one_session, one_session-IsValid}

-- An EDID generator.
abbrev pub blank : EdidParams → Bytes
blank p = []

abbrev pub device : DeviceState
device = record {
  table = one_session;
  cfg = record {
    caps = 0;
    driver_build = 18;
    max_monitors = 4;
    watchdog_secs = 0;
    ring_slots = 3;
    tdr_duck_mode = 0;
  };
  adapters = [];
  preferred_adapter = 0;
  pool = empty_pool;
}

abbrev pub opened : HandleCtx
opened = record { handshaken = true; authorized = true }

abbrev closed : HandleCtx
closed = record { handshaken = false; authorized = true }

-- The request to destroy session 7
abbrev asked : Bytes
asked = to_le_bytes 8 7

abbrev emptied : DeviceState
emptied = record device { table = (destroy one_session 7).1 }

abbrev destroyed : Outcome
destroyed = record {
  dev = emptied;
  handle = opened;
  result = record {
    status = completed;
    bytes_written = 4;
    effects = unplug_monitor 7 ∷ persist_effect emptied ∷ [];
  };
  reply = some (result_code Err.ok);
}

is_destroyed :
    dispatch blank device opened 0 200 Ioctl.ioctl_destroy_monitor asked 4 ≡ some destroyed
unfolding dispatch on_destroy read_req destroy_layout read_u64 to_le_bytes from_le_bytes finish
    size_of destroy take_out create create_trusted admit plug monitor_of new identity_of
    is_ephemeral choose_adapter display_ids select_adapter find_luid hardware max_by_vram greatest
    is_greater validate_list validate_from validate outside_envelope hdr_of check_depth mode_eq
    depth_eq from_raw as_raw Identity.new Identity.acquire Identity.claim Identity.find_free
    Identity.is_permanent_display_id Identity.ephemeral_display_id contains Identity.reserve
is_destroyed = refl

abbrev plugged : ℕ → Bool
plugged k = is_live k one_session

as_plugged : Mirrors plugged one_session
unfolding Mirrors
as_plugged k = refl

dispatch-Mirrors_example :
    Mirrors (after_all plugged (unplug_monitor 7 ∷ persist_effect emptied ∷ [])) emptied.table
dispatch-Mirrors_example =
    dispatch-Mirrors blank plugged device opened 4 as_plugged 0 200 Ioctl.ioctl_destroy_monitor
      asked destroyed is_destroyed served
  where
    served : completed ≢ bad_buffer
    served q = cc

abbrev refused : Outcome
refused = record {
  dev = device;
  handle = closed;
  result = record { status = completed; bytes_written = 4; effects = [] };
  reply = some (result_code Err.not_handshaken);
}

is_refused : dispatch blank device closed 0 200 Ioctl.ioctl_destroy_monitor asked 4 ≡ some refused
unfolding dispatch on_destroy read_req destroy_layout read_u64 to_le_bytes from_le_bytes finish
    size_of
is_refused = refl

dispatch-before_handshake_example : (refused.dev ≡ device) × (refused.result.effects ≡ [])
dispatch-before_handshake_example =
    dispatch-before_handshake blank device closed 4 refl 0 200 Ioctl.ioctl_destroy_monitor asked
      refused is_refused

watchdog_tick-Mirrors_example :
    (dev' : DeviceState) × (effects : List Effect) × (watchdog_tick device 9_000
      ≡ some (dev', effects))
    × IsValid dev'.table
    × Mirrors (after_all plugged effects) dev'.table
watchdog_tick-Mirrors_example =
    watchdog_tick-Mirrors plugged device 9_000 one_session-IsValid as_plugged

-- The request to offer only 1280 x 720 on session 7
abbrev narrowed : Bytes
narrowed =
    to_le_bytes 8 7
    ++ (to_le_bytes 4 0
        ++ (to_le_bytes 4 1
            ++ (to_le_bytes 4 1280
                ++ (to_le_bytes 4 720 ++ (to_le_bytes 4 60_000 ++ replicate 52 0)))))

abbrev pub or_refused : Option Outcome → Outcome
or_refused none = refused
or_refused (some o) = o

abbrev pushed : Outcome
pushed = or_refused (on_update_modes device opened 0 narrowed 40)

is_pushed : on_update_modes device opened 0 narrowed 40 ≡ some pushed
unfolding on_update_modes read_update_modes_request read_legacy read_req update_layout mode_layout
    read_u64 read_u32 to_le_bytes from_le_bytes times run_update try_update bad_count update_modes
    update_monitor expire_block create create_trusted admit plug monitor_of new identity_of
    is_ephemeral choose_adapter display_ids select_adapter find_luid hardware max_by_vram greatest
    is_greater validate_list validate_from validate outside_envelope hdr_of check_depth mode_eq
    depth_eq from_raw as_raw Identity.new Identity.acquire Identity.claim Identity.find_free
    Identity.is_permanent_display_id Identity.ephemeral_display_id contains Identity.reserve
is_pushed = refl

is_asked : In (update_targets 7 1 (hd_mode ∷ [])) pushed.result.effects
unfolding on_update_modes read_update_modes_request read_legacy read_req update_layout mode_layout
    read_u64 read_u32 to_le_bytes from_le_bytes times run_update try_update bad_count update_modes
    update_monitor expire_block finish size_of answer_update conclude_update decide queue unchanged
    block_for is_empty target_base modes_eq select_targets select_from select_step create
    create_trusted admit plug monitor_of new identity_of is_ephemeral choose_adapter display_ids
    select_adapter find_luid hardware max_by_vram greatest is_greater validate_list validate_from
    validate outside_envelope hdr_of check_depth mode_eq depth_eq from_raw as_raw Identity.new
    Identity.acquire Identity.claim Identity.find_free Identity.is_permanent_display_id
    Identity.ephemeral_display_id contains Identity.reserve
is_asked = inl refl

on_update_modes-pushed_example : Parks pushed.dev.table 7 1 (hd_mode ∷ [])
on_update_modes-pushed_example =
    on_update_modes-pushed device opened 0 narrowed 40 pushed 7 1 (hd_mode ∷ []) is_pushed is_asked

cut_short : on_update_modes device opened 0 narrowed 39 ≡ some (refuse_buffer device opened)
unfolding on_update_modes read_update_modes_request read_legacy read_req update_layout mode_layout
    read_u64 read_u32 to_le_bytes from_le_bytes times
cut_short = refl

is_bad_buffer : (refuse_buffer device opened).result.status ≡ bad_buffer
unfolding refuse_buffer bad_buffer_result
is_bad_buffer = refl

on_update_modes-refused_example : (refuse_buffer device opened).dev ≡ device
on_update_modes-refused_example =
    on_update_modes-refused device opened 0 narrowed 39 (refuse_buffer device opened) cut_short
      is_bad_buffer
