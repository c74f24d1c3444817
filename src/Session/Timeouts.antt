-- ===== src/Session/Timeouts.antt =====
-- The lease timeouts that crates/luminal-vgd-core/src/session.rs grants.
use luminal_vgd.Prelude.{ℕ, ◌≤◌, ◌≡◌, ◌⊎◌, arith}
use luminal_vgd.Proto.{
  lease_timeout_disabled, lease_timeout_use_default, min_lease_timeout_ms, max_lease_timeout_ms,
}
use luminal_vgd.Session.Lease.{effective_lease_timeout}

-- A lease never expires only where the host asks for that, or where it asks for the default and the
-- watchdog is off; every other lease lasts between the least and the greatest timeout.
pub effective_lease_timeout_bounds :
    (requested_ms watchdog_secs : ℕ)
    → ((effective_lease_timeout requested_ms watchdog_secs ≡ lease_timeout_disabled)
        × ((requested_ms ≡ lease_timeout_disabled)
            ⊎ ((requested_ms ≡ lease_timeout_use_default) × (watchdog_secs ≡ 0))))
      ⊎ ((min_lease_timeout_ms ≤ effective_lease_timeout requested_ms watchdog_secs)
          × (effective_lease_timeout requested_ms watchdog_secs ≤ max_lease_timeout_ms))
unfolding effective_lease_timeout
effective_lease_timeout_bounds requested_ms watchdog_secs = ground arith
