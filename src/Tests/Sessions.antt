-- ===== src/Tests/Sessions.antt =====
-- Two sessions on a table of four, for crates/luminal-vgd-core/src/session.rs.
use luminal_vgd.Prelude.{
  ℕ, ◌+◌, ◌^◌, ◌<◌, ◌≡◌, refl, false, some, List, [], ◌∷◌, arith, contains, nat_eq,
}
use luminal_vgd.Prelude.Map.{lookup}
use luminal_vgd.Proto.{ModeSpec, CreateMonitorRequest, depth_eq, sdr8, from_raw, as_raw}
use luminal_vgd.Error.{Fallible}
use luminal_vgd.Adapter.{
  AdapterInfo, select_adapter, find_luid, hardware, max_by_vram, greatest, is_greater,
}
use luminal_vgd.Modes.{
  Mode, validate_list, validate_from, validate, mode_eq, outside_envelope, hdr_of, check_depth,
}
use luminal_vgd.Identity
use luminal_vgd.Session.State.{Monitor, SessionTable, ModeUpdate, new}
use luminal_vgd.Session.Create.{
  create, create_trusted, admit, plug, monitor_of, identity_of, is_ephemeral, choose_adapter,
  display_ids,
}
use luminal_vgd.Session.Removal.{tick}
use luminal_vgd.Session.Update.{update_modes}
use luminal_vgd.Session.Invariant.{
  tick-Ticks, Ticks, update_modes-IsValid, IsValid, new-IsValid, create-IsValid,
}

abbrev empty_table : SessionTable
empty_table = new 4 0

abbrev full_hd : ModeSpec
full_hd = record { width = 1920; height = 1080; refresh_millihz = 60_000 }

abbrev hd : ModeSpec
hd = record { width = 1280; height = 720; refresh_millihz = 60_000 }

abbrev pub full_hd_mode : Mode
full_hd_mode = record {
  width = 1920;
  height = 1080;
  refresh_millihz = 60_000;
  bit_depth = sdr8;
  hdr = false;
}

abbrev pub hd_mode : Mode
hd_mode = record {
  width = 1280;
  height = 720;
  refresh_millihz = 60_000;
  bit_depth = sdr8;
  hdr = false;
}

abbrev request : ℕ → CreateMonitorRequest
request session_id = record {
  session_id = session_id;
  display_id = 0;
  adapter_luid = 0;
  lease_timeout_ms = 5_000;
  bit_depth = 8;
  hdr = 0;
  edid_serial = 1;
  flags = 0;
  mode_count = 2;
  modes = full_hd ∷ hd ∷ [];
  physical_width_mm = 0;
  physical_height_mm = 0;
  friendly_name = [];
  max_nits = 0;
  reserved0 = 0;
}

abbrev pub adapters : List AdapterInfo
adapters = record { luid = 77; vram_bytes = 8; name = "gpu"; software = false } ∷ []

abbrev pub one_session : SessionTable
one_session = (create empty_table 100 (request 7) 0 adapters 0).1

abbrev two_sessions : SessionTable
two_sessions = (create one_session 3_000 (request 9) 0 adapters 0).1

pub one_session-IsValid : IsValid one_session
one_session-IsValid = create-IsValid empty_table 100 (request 7) 0 adapters 0 (new-IsValid 4 0)

valid : IsValid two_sessions
valid = create-IsValid one_session 3_000 (request 9) 0 adapters 0 one_session-IsValid

abbrev pub monitor : ℕ → ℕ → ℕ → Monitor
monitor session_id now connector =
    monitor_of empty_table now (request session_id)
      (record { modes = full_hd_mode ∷ hd_mode ∷ []; adapter_luid = 77 }) connector

pub first_found : lookup 7 one_session.monitors ≡ some (monitor 7 100 0)
unfolding create create_trusted admit plug monitor_of new identity_of is_ephemeral choose_adapter
    display_ids select_adapter find_luid hardware max_by_vram greatest is_greater validate_list
    validate_from validate outside_envelope hdr_of check_depth mode_eq depth_eq from_raw as_raw
    Identity.new Identity.acquire Identity.claim Identity.find_free Identity.is_permanent_display_id
    Identity.ephemeral_display_id contains Identity.reserve
first_found = refl

same_first : lookup 7 two_sessions.monitors ≡ some (monitor 7 100 0)
unfolding create create_trusted admit plug monitor_of new identity_of is_ephemeral choose_adapter
    display_ids select_adapter find_luid hardware max_by_vram greatest is_greater validate_list
    validate_from validate outside_envelope hdr_of check_depth mode_eq depth_eq from_raw as_raw
    Identity.new Identity.acquire Identity.claim Identity.find_free Identity.is_permanent_display_id
    Identity.ephemeral_display_id contains Identity.reserve
same_first = refl

second_found : lookup 9 two_sessions.monitors ≡ some (monitor 9 3_000 1)
unfolding create create_trusted admit plug monitor_of new identity_of is_ephemeral choose_adapter
    display_ids select_adapter find_luid hardware max_by_vram greatest is_greater validate_list
    validate_from validate outside_envelope hdr_of check_depth mode_eq depth_eq from_raw as_raw
    Identity.new Identity.acquire Identity.claim Identity.find_free Identity.is_permanent_display_id
    Identity.ephemeral_display_id contains Identity.reserve
second_found = refl

no_update_yet : one_session.update_seq ≡ 0
unfolding create create_trusted admit plug monitor_of new identity_of is_ephemeral choose_adapter
    display_ids select_adapter find_luid hardware max_by_vram greatest is_greater validate_list
    validate_from validate outside_envelope hdr_of check_depth mode_eq depth_eq from_raw as_raw
    Identity.new Identity.acquire Identity.claim Identity.find_free Identity.is_permanent_display_id
    Identity.ephemeral_display_id contains Identity.reserve
no_update_yet = refl

pub none_settled : (monitor 7 100 0).settled_seq ≡ 0
unfolding new monitor_of
none_settled = refl

-- The second session fed its lease last, so at 6 000 ms only the first has run out.
tick-Ticks_example :
    (gone : List Monitor) × (t' : SessionTable) × (tick two_sessions 6_000 ≡ some (gone, t'))
    × Ticks two_sessions 6_000 gone t'
tick-Ticks_example = tick-Ticks two_sessions 6_000 valid

pub room : one_session.update_seq + 1 < 2 ^ 64
room = omega (arith, no_update_yet)

update_modes-IsValid_example :
    (ans : Fallible ModeUpdate) × (t' : SessionTable) × (update_modes one_session 7 (hd ∷ []) 0 0
      ≡ some (ans, t'))
    × IsValid t'
update_modes-IsValid_example =
    update_modes-IsValid one_session 7 (hd ∷ []) 0 0 one_session-IsValid room

abbrev watchdog : ℕ
watchdog = 30
