-- ===== src/Session/Settle.antt =====
-- `settle_modes` of crates/luminal-vgd-core/src/session.rs.
use luminal_vgd.Prelude.{
  ℕ, Bool, not, ◌&&◌, ◌||◌, Option, none, some, List, leb, ltb, ◌==◌, if◌then◌else◌, length,
}
use luminal_vgd.Prelude.Map.{lookup, insert}
use luminal_vgd.Proto.Err
use luminal_vgd.Modes.{Mode}
use luminal_vgd.Session.State.{
  Monitor, PendingTargets, SessionTable, ModeUpdateResult, applied, not_applied, blocked, commits,
  SettleOutcome, settled, superseded_committed, stale,
}

-- `pending_targets.as_ref().map(|p| p.seq) == Some(seq)`, with the pending list where it holds.
unfoldable pub current : Monitor → ℕ → Option PendingTargets
current m seq = elim m.pending_targets [
  | none ↦ none
  | some p ↦ if p.seq == seq then some p else none
]

-- The last `match` of `settle_modes`, on a monitor whose pending list `pending` was taken.
unfoldable pub conclude : Monitor → PendingTargets → ModeUpdateResult → Bool → List Mode → Monitor
conclude m pending applied took published = record m {
  target_modes = if took then published else m.target_modes;
  blocked = none;
}
conclude m pending not_applied took published = record m { last_error = Err.update_failed }
conclude m pending (blocked superset_idx token) took published = record m {
  last_error = Err.mode_committed;
  blocked = some (record { targets = pending.targets; superset_idx = superset_idx; token = token });
}

-- The monitor after a settle that is honoured, with its high-water mark advanced.
unfoldable pub settle_monitor : Monitor → ℕ → ModeUpdateResult → List Mode → SettleOutcome × Monitor
settle_monitor old seq result published =
    let m : Monitor = record old { settled_seq = seq } in
    let took = commits result && not (length published == 0) in
    elim (current old seq) [
      | none ↦
          if took
          then (superseded_committed, record m { target_modes = published; blocked = none })
          else (stale, m)
      | some pending ↦
          (settled, conclude (record m { pending_targets = none }) pending result took published)
    ]

unfoldable pub settle_modes :
    SessionTable → ℕ → ℕ → ModeUpdateResult → List Mode → SettleOutcome × SessionTable
settle_modes t session_id seq result published = elim (lookup session_id t.monitors) [
  | none ↦ (stale, t)
  | some m ↦
      if leb seq m.settled_seq || ltb t.update_seq seq
      then (stale, t)
      else let (outcome, m') = settle_monitor m seq result published in
        (outcome, record t { monitors = insert session_id m' t.monitors })
]
