-- ===== src/Host/RingWatch/Verdicts.antt =====
-- What the controller does with the signal that crates/luminal-vgd-host/src/ring_watch.rs reads off
-- a header.
use luminal_vgd.Prelude.{
  ℕ, ◌+◌, ◌*◌, ◌^◌, ◌<◌, ◌≤◌, Bool, true, false, if◌then◌else◌, ◌⊎◌, ◌≡◌, ◌↔◌, refl, arith,
}
use luminal_vgd.Proto.RingState
use luminal_vgd.Proto.Sections.{RingHeader, ring_magic}
use luminal_vgd.Host.Controller.{
  CaptureController, direct_encode, RingSignal, active, rebuilding, heartbeat_stale, dead, starved,
  schedule_restore, wgc, ring_signal, on_signal, fall_back,
}
use luminal_vgd.Host.RingWatch.{classify, signal_of}

-- The driver's last heartbeat is at most two seconds old, and the ring is active.
pub record IsUsable (header : RingHeader) (now_qpc : ℕ) : Type 0 where
  pub known : header.magic ≡ ring_magic
  pub timed : 0 < header.qpc_frequency
  pub alive : now_qpc ≤ header.driver_heartbeat_qpc + 2 * header.qpc_frequency
  pub running : header.state ≡ RingState.active

abbrev is_active : RingSignal → Bool
is_active (active g) = true
is_active _ = false

on_signal-mode :
    (now_ms : ℕ) (signal : RingSignal) (c : CaptureController)
    → (on_signal now_ms signal c).1.mode ≡ (if is_active signal then c.mode else wgc)
unfolding on_signal fall_back schedule_restore
on_signal-mode now_ms (active g) c = ground arith
on_signal-mode now_ms rebuilding c = refl
on_signal-mode now_ms heartbeat_stale c = refl
on_signal-mode now_ms dead c = refl
on_signal-mode now_ms starved c = refl

signal_of-active :
    (header : RingHeader)
    → (is_active (signal_of header) ≡ true) ↔ (header.state ≡ RingState.active)
unfolding signal_of
signal_of-active header = ground arith

classify-IsUsable :
    (header : RingHeader) (now_qpc : ℕ)
    → header.qpc_frequency < 2 ^ 53
    → (is_active (classify header now_qpc) ≡ true) ↔ IsUsable header now_qpc
unfolding classify
classify-IsUsable header now_qpc bounded = ground (arith, signal_of-active header)

-- While direct encoding is active, the controller stays with it exactly if the sampled ring is
-- usable: its magic and frequency are set, its heartbeat is at most two seconds old, and its state
-- is active. In every other case it falls back to WGC. The clock's frequency is below 2 ^ 53 Hz.
pub ring_signal-classify :
    (c : CaptureController) (now_ms : ℕ) (header : RingHeader) (now_qpc : ℕ)
    → c.mode ≡ direct_encode
    → header.qpc_frequency < 2 ^ 53
    → let c' = (ring_signal now_ms (classify header now_qpc) c).1 in
      ((c'.mode ≡ direct_encode) ↔ IsUsable header now_qpc)
      × ((c'.mode ≡ direct_encode) ⊎ (c'.mode ≡ wgc))
unfolding ring_signal
ring_signal-classify c now_ms header now_qpc direct bounded = rw direct (
    ground (
      arith,
      on_signal-mode now_ms (classify header now_qpc) c,
      classify-IsUsable header now_qpc bounded,
    ))
