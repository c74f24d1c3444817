-- ===== src/Host/Actions.antt =====
-- The data of crates/luminal-vgd-host/src/controller.rs, with the options of config.rs.
use luminal_vgd.Prelude.{ℕ, Bool, true, Option, none, List}
use luminal_vgd.Proto.{default_lease_timeout_ms}
use luminal_vgd.Host.Notice.{Notice, FallbackReason}

pub record VgdConfig : Type 0 where
  pub adapter_name : Option (List ℕ)
  pub ring_slots : ℕ
  pub watchdog_secs : ℕ
  pub dda_enabled : Bool
  pub refresh_doubling : Bool
  pub lease_timeout_ms : ℕ
  pub stable_display_identity : Bool
  pub physical_width_mm : ℕ
  pub physical_height_mm : ℕ
  pub restore_initial_backoff_ms : ℕ
  pub restore_max_backoff_ms : ℕ
  pub restore_stable_frames : ℕ

-- `VgdConfig::default`
unfoldable pub default_config : VgdConfig
default_config = record {
  adapter_name = none;
  ring_slots = 3;
  watchdog_secs = 10;
  dda_enabled = true;
  refresh_doubling = true;
  lease_timeout_ms = default_lease_timeout_ms;
  stable_display_identity = true;
  physical_width_mm = 0;
  physical_height_mm = 0;
  restore_initial_backoff_ms = 1_000;
  restore_max_backoff_ms = 30_000;
  restore_stable_frames = 120;
}

pub data CaptureMode : Type 0 where
  direct_encode wgc dda failed : CaptureMode

pub data ProbeOutcome : Type 0 where
  -- with the generation
  healthy : ℕ → ProbeOutcome
  unavailable : FallbackReason → ProbeOutcome

pub data RingSignal : Type 0 where
  -- with the generation
  active : ℕ → RingSignal
  rebuilding heartbeat_stale dead starved : RingSignal

pub data Rung : Type 0 where
  r1_recreate_pool r2_rebuild_session r3_rebuild_device r4_cycle_virtual_display r5_drop_to_dda :
      Rung

pub data Action : Type 0 where
  -- with the generation
  use_direct : ℕ → Action
  use_wgc use_dda force_keyframe : Action
  -- with the time
  schedule_restore_probe : ℕ → Action
  teardown_wgc : Action
  attempt_rung : Rung → Action
  fail_session : Action
  notify : Notice → Action

pub record RestoreTrack : Type 0 where
  pub backoff_ms : ℕ
  pub warm_wgc : Bool
  pub stable_frames : ℕ

pub record CaptureController : Type 0 where
  pub cfg : VgdConfig
  pub mode : CaptureMode
  pub driver_present : Bool
  pub restore : Option RestoreTrack
  pub ladder : Option Rung
  pub ladder_reason : Option FallbackReason
  pub last_generation : ℕ
