-- ===== src/Session/State.antt =====
-- The data of crates/luminal-vgd-core/src/session.rs.
use luminal_vgd.Prelude.{ℕ, Bool, true, false, Option, none, some, List, [], min}
use luminal_vgd.Prelude.Int.{ℤ}
use luminal_vgd.Prelude.Map.{Map}
use luminal_vgd.Proto.{abi_max_monitors}
use luminal_vgd.Modes.{Mode}
use luminal_vgd.Identity.{ConnectorTable}
use luminal_vgd.Identity

pub record PendingTargets : Type 0 where
  pub seq : ℕ
  pub targets : List Mode

pub record BlockedPush : Type 0 where
  pub targets : List Mode
  pub superset_idx : ℕ
  pub token : ℕ

pub record Monitor : Type 0 where
  pub session_id : ℕ
  pub display_id : ℕ
  pub ephemeral_identity : Bool
  pub connector_index : ℕ
  pub edid_serial : ℕ
  pub product_code : ℕ
  pub modes : List Mode
  pub target_modes : List Mode
  pub pending_targets : Option PendingTargets
  pub blocked : Option BlockedPush
  pub settled_seq : ℕ
  pub adapter_luid : ℕ
  pub physical_width_mm : ℕ
  pub physical_height_mm : ℕ
  pub max_nits : ℕ
  pub friendly_name : List ℕ
  pub flags : ℕ
  pub lease_timeout_ms : ℕ
  pub created_ms : ℕ
  pub last_ping_ms : ℕ
  pub ring_generation : ℕ
  pub ring_state : ℕ
  pub latest_sequence : ℕ
  pub frames_published : ℕ
  pub frames_dropped : ℕ
  pub last_error : ℤ

-- `target_base`
unfoldable pub target_base : Monitor → List Mode
target_base m = elim m.pending_targets [ some p ↦ p.targets | none ↦ m.target_modes ]

pub data ModeUpdateResult : Type 0 where
  applied not_applied : ModeUpdateResult
  blocked : ℕ → ℕ → ModeUpdateResult

unfoldable pub commits : ModeUpdateResult → Bool
commits applied = true
commits not_applied = false
commits (blocked superset_idx token) = false

pub data SettleOutcome : Type 0 where
  settled superseded_committed stale : SettleOutcome

unfoldable pub is_settled : SettleOutcome → Bool
is_settled settled = true
is_settled superseded_committed = false
is_settled stale = false

unfoldable pub recorded : SettleOutcome → Bool
recorded settled = true
recorded superseded_committed = true
recorded stale = false

pub record ModeUpdate : Type 0 where
  pub targets : List Mode
  pub accepted : ℕ
  pub rejected : ℕ
  pub first_rejected : Option ℕ
  pub queued : Option ℕ
  pub pending : Bool
  pub refused : Bool
  pub blocked : Option ℕ

pub record SessionTable : Type 0 where
  pub max_monitors : ℕ
  pub watchdog_secs : ℕ
  pub monitors : Map Monitor
  pub connectors : ConnectorTable
  pub update_seq : ℕ

unfoldable pub new : ℕ → ℕ → SessionTable
new max_monitors watchdog_secs =
    let limit = min max_monitors abi_max_monitors in
    record {
      max_monitors = limit;
      watchdog_secs = watchdog_secs;
      monitors = [];
      connectors = Identity.new limit;
      update_seq = 0;
    }

unfoldable pub restore_reservations : SessionTable → List (ℕ × ℕ) → SessionTable
restore_reservations t entries = record t { connectors = Identity.restore t.connectors entries }
