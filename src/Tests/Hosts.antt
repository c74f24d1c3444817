-- ===== src/Tests/Hosts.antt =====
-- A session of the host's controller, for crates/luminal-vgd-host/src/controller.rs and
-- ring_watch.rs.
use luminal_vgd.Prelude.{
  ℕ, ◌^◌, ◌<◌, ◌≤◌, Bool, List, true, false, some, none, [], ◌∷◌, ◌≡◌, ◌↔◌, ◌⊎◌, refl, leb,
  if◌then◌else◌, arith,
}
use luminal_vgd.Proto.RingState
use luminal_vgd.Proto.Sections.{RingHeader, ring_magic}
use luminal_vgd.Host.Notice.{FallbackReason, driver_absent, wgc_starvation}
use luminal_vgd.Host.Notice
use luminal_vgd.Host.Controller.{
  default_config, CaptureController, new, wgc, direct_encode, healthy, unavailable, session_start,
  schedule_restore, restore_probe_result, ring_signal, wgc_trip, fresh_track, r1_recreate_pool,
  r5_drop_to_dda, attempt_rung, notify, force_keyframe, use_direct, teardown_wgc,
}
use luminal_vgd.Host.Controller.Ladder.{climb, follow, settled, above, at_rest, wgc_trip-climb}
use luminal_vgd.Host.Controller.Restoring.{
  fail_probes, direct_frames, schedules, backed_off, fail_probes-schedules, restored-direct_frames,
}
use luminal_vgd.Host.Controller.Sources.{
  World, nothing, Follows, Reach, here, next, trip, after, Reach-Follows,
}
use luminal_vgd.Host.RingWatch.{classify}
use luminal_vgd.Host.RingWatch.Verdicts.{IsUsable, ring_signal-classify}

-- A session that starts without the driver.
abbrev fallen : CaptureController
fallen = record {
  cfg = default_config;
  mode = wgc;
  driver_present = false;
  restore = some (fresh_track default_config);
  ladder = none;
  ladder_reason = none;
  last_generation = 0;
}

abbrev direct : CaptureController
direct = record fallen { mode = direct_encode }

starts : (session_start 0 (unavailable driver_absent) (new default_config)).1 ≡ fallen
unfolding session_start schedule_restore new default_config
starts = refl

abbrev reports : List Bool
reports = false ∷ false ∷ true ∷ false ∷ false ∷ []

wgc_trip-climb_example :
    ((wgc_trip wgc_starvation fallen).0 ≡ attempt_rung r1_recreate_pool ∷ [])
    × ((climb reports (wgc_trip wgc_starvation fallen).1).0
        ≡ follow wgc_starvation r1_recreate_pool (above fallen r1_recreate_pool) reports)
    × ((climb reports (wgc_trip wgc_starvation fallen).1).1
        ≡ at_rest fallen (settled r1_recreate_pool (above fallen r1_recreate_pool) reports))
wgc_trip-climb_example = wgc_trip-climb fallen wgc_starvation reports refl refl (omega arith)

abbrev failures : List (ℕ × FallbackReason)
failures = (1_000, driver_absent) ∷ (3_000, driver_absent) ∷ []

limited : default_config.restore_max_backoff_ms < 2 ^ 63
unfolding default_config
limited = omega arith

started : default_config.restore_initial_backoff_ms ≤ default_config.restore_max_backoff_ms
unfolding default_config
started = omega arith

fail_probes-schedules_example :
    ((fail_probes failures fallen).0
      ≡ schedules default_config.restore_initial_backoff_ms default_config.restore_max_backoff_ms 0
          failures)
    × ((fail_probes failures fallen).1.mode ≡ wgc)
    × ((fail_probes failures fallen).1.restore
        ≡ some (
            backed_off
              (fresh_track default_config)
              default_config.restore_initial_backoff_ms
              default_config.restore_max_backoff_ms
              2))
fail_probes-schedules_example =
    fail_probes-schedules failures fallen (fresh_track default_config) refl refl started limited

some_frames : 0 < default_config.restore_stable_frames
unfolding default_config
some_frames = omega arith

bounded_frames : default_config.restore_stable_frames < 2 ^ 32
unfolding default_config
bounded_frames = omega arith

restored-direct_frames_example :
    ((restore_probe_result 2_000 (healthy 3) fallen).0
      ≡ use_direct 3 ∷ force_keyframe ∷ notify Notice.restored ∷ [])
    × ((direct_frames 120 (restore_probe_result 2_000 (healthy 3) fallen).1).0
        ≡ (if leb default_config.restore_stable_frames 120 then teardown_wgc ∷ [] else []))
restored-direct_frames_example =
    restored-direct_frames 2_000 3 120 fallen (fresh_track default_config) refl refl some_frames
      bounded_frames

abbrev header : RingHeader
header = record {
  magic = ring_magic;
  header_version = 1;
  ring_generation = 4;
  slot_count = 3;
  state = RingState.active;
  reserved0 = 0;
  latest_sequence = 0;
  latest_present_qpc = 0;
  frames_published = 0;
  frames_dropped = 0;
  driver_heartbeat_qpc = 1_000_000;
  qpc_frequency = 10_000_000;
}

ring_signal-classify_example :
    (((ring_signal 0 (classify header 21_000_000) direct).1.mode ≡ direct_encode)
      ↔ IsUsable header 21_000_000)
    × (((ring_signal 0 (classify header 21_000_000) direct).1.mode ≡ direct_encode)
        ⊎ ((ring_signal 0 (classify header 21_000_000) direct).1.mode ≡ wgc))
ring_signal-classify_example = ring_signal-classify direct 0 header 21_000_000 refl (omega arith)

-- The last rung is under way.
abbrev dropping : CaptureController
dropping = record fallen { ladder = some r5_drop_to_dda; ladder_reason = some wgc_starvation }

abbrev before_session : World
before_session = record { ctl = new default_config; source = nothing; probes = 0 }

abbrev session : World
session = after (session_start 0 (unavailable driver_absent) before_session.ctl) before_session

abbrev tripped : World
tripped = after (wgc_trip wgc_starvation session.ctl) session

abbrev frozen : Reach session tripped
frozen = next here (trip session wgc_starvation)

Reach-Follows_example : Follows tripped
Reach-Follows_example = Reach-Follows before_session 0 (unavailable driver_absent) frozen
