-- ===== src/Host/Controller.antt =====
-- The methods of crates/luminal-vgd-host/src/controller.rs. A method
-- returns its actions and the controller it leaves.
pub mod Sources
pub mod Restoring
pub mod Ladder
use luminal_vgd.Prelude.{
  ℕ, ◌+◌, ◌*◌, ◌%◌, ◌^◌, Bool, true, false, not, ◌&&◌, Option, none, some, List, [], ◌∷◌, leb, min,
  ◌==◌, if◌then◌else◌, is_some,
}
use luminal_vgd.Host.Notice.{
  Notice, FallbackReason, driver_absent, ring_rebuilding, ring_dead, direct_starvation,
  wgc_starvation,
}
pub use luminal_vgd.Host.Actions.{
  VgdConfig, CaptureMode, direct_encode, wgc, dda, failed, ProbeOutcome, healthy, unavailable,
  RingSignal, active, rebuilding, heartbeat_stale, dead, starved, Rung, r1_recreate_pool,
  r2_rebuild_session, r3_rebuild_device, r4_cycle_virtual_display, r5_drop_to_dda, Action,
  use_direct, use_wgc, use_dda, force_keyframe, schedule_restore_probe, teardown_wgc, attempt_rung,
  fail_session, notify, RestoreTrack, CaptureController,
}
unfoldable pub use luminal_vgd.Host.Actions.{default_config}
use luminal_vgd.Host.Notice

unfoldable pub new : VgdConfig → CaptureController
new cfg = record {
  cfg = cfg;
  mode = wgc;
  driver_present = false;
  restore = none;
  ladder = none;
  ladder_reason = none;
  last_generation = 0;
}

abbrev pub is_driver_absent : FallbackReason → Bool
is_driver_absent driver_absent = true
is_driver_absent _ = false

abbrev pub fresh_track : VgdConfig → RestoreTrack
fresh_track cfg = record {
  backoff_ms = cfg.restore_initial_backoff_ms;
  warm_wgc = false;
  stable_frames = 0;
}

-- `get_or_insert`
abbrev pub track_or_fresh : VgdConfig → Option RestoreTrack → RestoreTrack
track_or_fresh cfg none = fresh_track cfg
track_or_fresh cfg (some t) = t

unfoldable pub schedule_restore : ℕ → CaptureController → Action × CaptureController
schedule_restore now_ms c =
    let track = track_or_fresh c.cfg c.restore in
    (
      schedule_restore_probe ((now_ms + track.backoff_ms) % 2 ^ 64),
      record c { restore = some track },
    )

-- The first three assignments of `session_start`.
abbrev pub forget_session : CaptureController → CaptureController
forget_session c = record c { restore = none; ladder = none; ladder_reason = none }

unfoldable pub session_start :
    ℕ → ProbeOutcome → CaptureController → List Action × CaptureController
session_start now_ms (healthy generation) c = (
  use_direct generation ∷ [],
  record (forget_session c) {
    mode = direct_encode;
    driver_present = true;
    last_generation = generation;
  },
)
session_start now_ms (unavailable reason) c =
    let (probe, c') =
      schedule_restore now_ms (record (forget_session c) {
        driver_present = not (is_driver_absent reason);
        mode = wgc;
      }) in
    (use_wgc ∷ notify (Notice.fell_back reason) ∷ probe ∷ [], c')

unfoldable pub fall_back : ℕ → FallbackReason → CaptureController → List Action × CaptureController
fall_back now_ms reason c =
    let (probe, c') = schedule_restore now_ms (record c { mode = wgc }) in
    (use_wgc ∷ force_keyframe ∷ notify (Notice.fell_back reason) ∷ probe ∷ [], c')

abbrev pub is_direct : CaptureMode → Bool
is_direct direct_encode = true
is_direct _ = false

-- The `match` of `ring_signal`, while direct encoding is active.
unfoldable pub on_signal : ℕ → RingSignal → CaptureController → List Action × CaptureController
on_signal now_ms (active generation) c =
    if not (generation == c.last_generation)
    then (use_direct generation ∷ force_keyframe ∷ [], record c { last_generation = generation })
    else ([], c)
on_signal now_ms rebuilding c = fall_back now_ms ring_rebuilding c
on_signal now_ms heartbeat_stale c = fall_back now_ms Notice.heartbeat_stale c
on_signal now_ms dead c = fall_back now_ms ring_dead c
on_signal now_ms starved c = fall_back now_ms direct_starvation c

unfoldable pub ring_signal : ℕ → RingSignal → CaptureController → List Action × CaptureController
ring_signal now_ms signal c = if not (is_direct c.mode) then ([], c) else on_signal now_ms signal c

-- `matches!(self.mode, CaptureMode::Wgc | CaptureMode::Dda)`
abbrev pub is_fallback : CaptureMode → Bool
is_fallback wgc = true
is_fallback dda = true
is_fallback _ = false

-- The track once direct encoding is restored, if there is one.
abbrev pub warmed : VgdConfig → Option RestoreTrack → Option RestoreTrack
warmed cfg none = none
warmed cfg (some t) =
    some
      (record t { backoff_ms = cfg.restore_initial_backoff_ms; warm_wgc = true; stable_frames = 0 })

-- The `match` of `restore_probe_result`, while in fallback.
unfoldable pub on_probe : ℕ → ProbeOutcome → CaptureController → List Action × CaptureController
on_probe now_ms (healthy generation) c = (
  use_direct generation ∷ force_keyframe ∷ notify Notice.restored ∷ [],
  record c {
    mode = direct_encode;
    driver_present = true;
    last_generation = generation;
    restore = warmed c.cfg c.restore;
  },
)
on_probe now_ms (unavailable reason) c =
    let t = track_or_fresh c.cfg c.restore in
    let backoff = min (t.backoff_ms * 2 % 2 ^ 64) c.cfg.restore_max_backoff_ms in
    (
      schedule_restore_probe ((now_ms + backoff) % 2 ^ 64) ∷ [],
      record c {
        driver_present = if is_driver_absent reason then false else c.driver_present;
        restore = some (record t { backoff_ms = backoff });
      },
    )

unfoldable pub restore_probe_result :
    ℕ → ProbeOutcome → CaptureController → List Action × CaptureController
restore_probe_result now_ms probe c =
    if not (is_fallback c.mode) then ([], c) else on_probe now_ms probe c

-- A frame while a session is kept warm.
unfoldable pub warm_frame : RestoreTrack → CaptureController → List Action × CaptureController
warm_frame t c =
    let frames = (t.stable_frames + 1) % 2 ^ 32 in
    if leb c.cfg.restore_stable_frames frames
    then (
      teardown_wgc ∷ [],
      record c { restore = some (record t { stable_frames = frames; warm_wgc = false }) },
    )
    else ([], record c { restore = some (record t { stable_frames = frames }) })

unfoldable pub direct_frame_ok : CaptureController → List Action × CaptureController
direct_frame_ok c =
    if not (is_direct c.mode)
    then ([], c)
    else elim c.restore [ none ↦ ([], c) | some t ↦ if t.warm_wgc then warm_frame t c else ([], c) ]

abbrev pub is_wgc : CaptureMode → Bool
is_wgc wgc = true
is_wgc _ = false

unfoldable pub wgc_trip : FallbackReason → CaptureController → List Action × CaptureController
wgc_trip reason c = if not (is_wgc c.mode && not (is_some c.ladder)) then ([], c) else (
  attempt_rung r1_recreate_pool ∷ [],
  record c { ladder = some r1_recreate_pool; ladder_reason = some reason },
)

abbrev pub rank : Rung → ℕ
rank r1_recreate_pool = 1
rank r2_rebuild_session = 2
rank r3_rebuild_device = 3
rank r4_cycle_virtual_display = 4
rank r5_drop_to_dda = 5

-- `self.ladder == Some(rung)`
abbrev pub is_rung : Option Rung → Rung → Bool
is_rung none rung = false
is_rung (some r) rung = rank r == rank rung

-- `unwrap_or(FallbackReason::WgcStarvation)`
abbrev pub reason_or_starved : Option FallbackReason → FallbackReason
reason_or_starved none = wgc_starvation
reason_or_starved (some r) = r

abbrev pub is_last : Rung → Bool
is_last rung = rank rung == 5

unfoldable pub rung_succeeded : Rung → CaptureController → List Action × CaptureController
rung_succeeded rung c =
    let reason = reason_or_starved c.ladder_reason in
    let c' : CaptureController = record c { ladder_reason = none; ladder = none } in
    if is_last rung
    then (force_keyframe ∷ notify (Notice.dda reason) ∷ [], record c' { mode = dda })
    else (force_keyframe ∷ [], c')

unfoldable pub next_rung : CaptureController → Rung → Option Rung
next_rung c r1_recreate_pool = some r2_rebuild_session
next_rung c r2_rebuild_session = some r3_rebuild_device
next_rung c r3_rebuild_device =
    if c.driver_present
    then some r4_cycle_virtual_display
    else if c.cfg.dda_enabled
    then some r5_drop_to_dda
    else none
next_rung c r4_cycle_virtual_display = if c.cfg.dda_enabled then some r5_drop_to_dda else none
next_rung c r5_drop_to_dda = none

unfoldable pub rung_failed : Rung → CaptureController → List Action × CaptureController
rung_failed rung c = elim (next_rung c rung) [
  | some r ↦ (attempt_rung r ∷ [], record c { ladder = some r })
  | none ↦ (
    notify (Notice.failed (reason_or_starved c.ladder_reason)) ∷ fail_session ∷ [],
    record c { mode = failed; ladder_reason = none; ladder = none },
  )
]

unfoldable pub rung_result : Rung → Bool → CaptureController → List Action × CaptureController
rung_result rung success c =
    if not (is_rung c.ladder rung)
    then ([], c)
    else if success
    then rung_succeeded rung c
    else rung_failed rung c
