-- ===== src/Session/Lease.antt =====
-- Leases, in crates/luminal-vgd-core/src/session.rs: their timeouts, feeding and reading them.
use luminal_vgd.Prelude.{
  ℕ, ◌*◌, ◌-◌, Bool, not, ◌&&◌, none, some, ltb, ◌==◌, if◌then◌else◌, min, max, ok, err,
}
use luminal_vgd.Prelude.Map.{lookup, insert}
use luminal_vgd.Error.{Fallible, no_such_session}
use luminal_vgd.Proto.{
  u32_max, lease_timeout_use_default, lease_timeout_disabled, min_lease_timeout_ms,
  max_lease_timeout_ms, default_lease_timeout_ms,
}
use luminal_vgd.Session.State.{Monitor, SessionTable}

-- `clamp`
abbrev pub clamp : ℕ → ℕ → ℕ → ℕ
clamp lo hi x = min (max x lo) hi

abbrev pub saturating_mul : ℕ → ℕ → ℕ
saturating_mul a b = min (a * b) u32_max

unfoldable pub effective_lease_timeout : ℕ → ℕ → ℕ
effective_lease_timeout requested_ms watchdog_secs =
    if requested_ms == lease_timeout_use_default
    then (if watchdog_secs == 0
        then lease_timeout_disabled
        else min
            (max
              (clamp min_lease_timeout_ms max_lease_timeout_ms (saturating_mul watchdog_secs 1000))
              (min default_lease_timeout_ms max_lease_timeout_ms))
            max_lease_timeout_ms)
    else if requested_ms == lease_timeout_disabled
    then lease_timeout_disabled
    else clamp min_lease_timeout_ms max_lease_timeout_ms requested_ms

-- `saturating_sub` is `-` on the natural numbers.
unfoldable pub has_expired : ℕ → Monitor → Bool
has_expired now_ms m =
    not (m.lease_timeout_ms == lease_timeout_disabled)
    && ltb m.lease_timeout_ms (now_ms - m.last_ping_ms)

unfoldable pub ping : SessionTable → ℕ → ℕ → Fallible (Unit {0}) × SessionTable
ping t now_ms session_id = elim (lookup session_id t.monitors) [
  | none ↦ (err no_such_session, t)
  | some m ↦ (
    ok tt,
    record t { monitors = insert session_id (record m { last_ping_ms = now_ms }) t.monitors },
  )
]

abbrev pub remaining_ms : ℕ → Monitor → ℕ
remaining_ms now_ms m =
    if m.lease_timeout_ms == lease_timeout_disabled
    then u32_max
    else min (m.lease_timeout_ms - (now_ms - m.last_ping_ms)) u32_max

unfoldable pub query_lease : SessionTable → ℕ → ℕ → Fallible (ℕ × ℕ × ℕ)
query_lease t now_ms session_id = elim (lookup session_id t.monitors) [
  | none ↦ err no_such_session
  | some m ↦ ok (m.display_id, m.connector_index, remaining_ms now_ms m)
]
