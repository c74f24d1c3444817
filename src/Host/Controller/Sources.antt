-- ===== src/Host/Controller/Sources.antt =====
-- The capture thread that drives the controller of crates/luminal-vgd-host/src/controller.rs: it
-- carries out the actions in order, and what it meets in between is a step of a relation.
use luminal_vgd.Prelude.{
  ℕ, ◌+◌, ◌-◌, ◌<◌, Bool, true, ◌&&◌, List, [], ◌∷◌, ◌≡◌, inl, inr, Bool-cases, if◌then◌else◌,
  is_some, arith,
}
use luminal_vgd.Host.Notice.{FallbackReason}
use luminal_vgd.Host.Controller.{
  CaptureController, CaptureMode, direct_encode, wgc, dda, failed, ProbeOutcome, healthy,
  unavailable, RingSignal, active, rebuilding, heartbeat_stale, dead, starved, Rung, Action,
  use_direct, use_wgc, use_dda, schedule_restore_probe, session_start, schedule_restore, fall_back,
  on_signal, ring_signal, is_fallback, on_probe, restore_probe_result, warm_frame, direct_frame_ok,
  wgc_trip, is_direct, is_rung, is_last, rung_succeeded, rung_failed, rung_result,
}

-- What feeds the encoder.
pub data Source : Type 0 where
  nothing ring_source wgc_source desktop_source : Source

pub record World : Type 0 where
  pub ctl : CaptureController
  pub source : Source
  -- the restore probes that are scheduled and have not been reported
  pub probes : ℕ

abbrev pub carry_out : Action → World → World
carry_out (use_direct generation) w = record w { source = ring_source }
carry_out use_wgc w = record w { source = wgc_source }
carry_out use_dda w = record w { source = desktop_source }
carry_out (schedule_restore_probe at_ms) w = record w { probes = w.probes + 1 }
carry_out _ w = w

abbrev pub carry_out_all : List Action → World → World
carry_out_all [] w = w
carry_out_all (a ∷ l) w = carry_out_all l (carry_out a w)

-- The world after a method of the controller.
abbrev pub after : List Action × CaptureController → World → World
after (actions, c) w = carry_out_all actions (record w { ctl = c })

-- A report of a rung: to drop to Desktop Duplication is to change the source.
abbrev pub dropped : Rung → Bool → World → World
dropped rung success w =
    if is_rung w.ctl.ladder rung && (success && is_last rung)
    then record w { source = desktop_source }
    else w

pub data Step : World → World → Type 0 where
  start :
      (w : World) (now_ms : ℕ) (probe : ProbeOutcome)
      → Step w (after (session_start now_ms probe w.ctl) w)
  sample :
      (w : World) (now_ms : ℕ) (signal : RingSignal)
      → Step w (after (ring_signal now_ms signal w.ctl) w)
  probed :
      (w : World) (now_ms : ℕ) (probe : ProbeOutcome)
      → 0 < w.probes
      → Step w
          (after (restore_probe_result now_ms probe w.ctl) (record w { probes = w.probes - 1 }))
  frame : (w : World) → Step w (after (direct_frame_ok w.ctl) w)
  trip : (w : World) (why : FallbackReason) → Step w (after (wgc_trip why w.ctl) w)
  -- A rung is reported while the session is in fallback.
  report :
      (w : World) (rung : Rung) (success : Bool)
      → is_fallback w.ctl.mode ≡ true
      → Step w (after (rung_result rung success w.ctl) (dropped rung success w))

pub data Reach (w : World) : World → Type 0 where
  here : Reach w w
  next : {v u : World} → Reach w v → Step v u → Reach w u

abbrev pub source_of : CaptureMode → Source → Source
source_of direct_encode s = ring_source
source_of wgc s = wgc_source
source_of dda s = desktop_source
source_of failed s = s

-- The encoder is fed by what the mode says, and in fallback a restore probe is scheduled.
pub record Follows (w : World) : Type 0 where
  pub fed : w.source ≡ source_of w.ctl.mode w.source
  pub probing : is_fallback w.ctl.mode ≡ true → 0 < w.probes
  pub tracked : is_fallback w.ctl.mode ≡ true → is_some w.ctl.restore ≡ true

start-Follows :
    (w : World) (now_ms : ℕ) (probe : ProbeOutcome)
    → Follows (after (session_start now_ms probe w.ctl) w)
unfolding session_start schedule_restore
start-Follows w now_ms (healthy g) = ground arith
start-Follows w now_ms (unavailable why) = ground arith

fall_back-Follows :
    (w : World) (now_ms : ℕ) (why : FallbackReason) → Follows (after (fall_back now_ms why w.ctl) w)
unfolding fall_back schedule_restore
fall_back-Follows w now_ms why = ground arith

signalled-Follows :
    (w : World) (now_ms : ℕ) (signal : RingSignal)
    → is_direct w.ctl.mode ≡ true
    → Follows w
    → Follows (after (on_signal now_ms signal w.ctl) w)
unfolding on_signal
signalled-Follows w now_ms (active g) direct f = ground arith
signalled-Follows w now_ms rebuilding direct f = fall_back-Follows w now_ms _
signalled-Follows w now_ms heartbeat_stale direct f = fall_back-Follows w now_ms _
signalled-Follows w now_ms dead direct f = fall_back-Follows w now_ms _
signalled-Follows w now_ms starved direct f = fall_back-Follows w now_ms _

sample-Follows :
    (w : World) (now_ms : ℕ) (signal : RingSignal)
    → Follows w
    → Follows (after (ring_signal now_ms signal w.ctl) w)
unfolding ring_signal on_signal
sample-Follows w now_ms signal f = elim (Bool-cases (is_direct w.ctl.mode)) [
  | inl direct ↦ rw direct (signalled-Follows w now_ms signal direct f)
  | inr other ↦ rw other f
]

probed-Follows :
    (w : World) (now_ms : ℕ) (probe : ProbeOutcome)
    → Follows w
    → Follows (after (restore_probe_result now_ms probe w.ctl) (record w { probes = w.probes - 1 }))
unfolding restore_probe_result on_probe
probed-Follows w now_ms (healthy g) f = ground arith
probed-Follows w now_ms (unavailable why) f = ground arith

frame-Follows : (w : World) → Follows w → Follows (after (direct_frame_ok w.ctl) w)
unfolding direct_frame_ok warm_frame
frame-Follows w f = ground arith

trip-Follows :
    (w : World) (why : FallbackReason) → Follows w → Follows (after (wgc_trip why w.ctl) w)
unfolding wgc_trip
trip-Follows w why f = ground arith

report-Follows :
    (w : World) (rung : Rung) (success : Bool)
    → is_fallback w.ctl.mode ≡ true
    → Follows w
    → Follows (after (rung_result rung success w.ctl) (dropped rung success w))
unfolding rung_result rung_succeeded rung_failed
report-Follows w rung success fallback f = ground arith

Step-Follows : {w u : World} → Step w u → Follows w → Follows u
Step-Follows (start w now_ms probe) f = start-Follows w now_ms probe
Step-Follows (sample w now_ms signal) f = sample-Follows w now_ms signal f
Step-Follows (probed w now_ms probe scheduled) f = probed-Follows w now_ms probe f
Step-Follows (frame w) f = frame-Follows w f
Step-Follows (trip w why) f = trip-Follows w why f
Step-Follows (report w rung success fallback) f = report-Follows w rung success fallback f

-- From the start of a session, whatever order of starts, ring signals, probe results, frames,
-- watchdog trips and rung reports follows, in which rungs are reported only in fallback, and probes
-- only when scheduled: the encoder is fed by the source that the mode names, unless the session has
-- failed, and as long as the session is in fallback a restore probe is scheduled and its backoff is
-- tracked.
pub Reach-Follows :
    (w : World) (now_ms : ℕ) (probe : ProbeOutcome) {u : World}
    → Reach (after (session_start now_ms probe w.ctl) w) u
    → Follows u
Reach-Follows w now_ms probe here = start-Follows w now_ms probe
Reach-Follows w now_ms probe (next r s) = Step-Follows s (Reach-Follows w now_ms probe r)
