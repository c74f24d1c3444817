-- ===== src/Modes/Doubling.antt =====
-- `Mode::doubled_refresh` of crates/luminal-vgd-core/src/modes.rs.
use luminal_vgd.Prelude.{ℕ, ◌*◌, ◌≤◌, ◌<◌, ◌≡◌, ◌↔◌, some, arith}
use luminal_vgd.Proto.{u32_max}
use luminal_vgd.Modes.{doubled_refresh}

-- `doubled_refresh` answers with a rate exactly where that is twice the given one, which is not
-- zero, and fits a `u32`.
pub doubled_refresh_iff :
    (rate doubled : ℕ)
    → (doubled_refresh rate ≡ some doubled)
      ↔ ((doubled ≡ rate * 2) × (0 < rate) × (doubled ≤ u32_max))
unfolding doubled_refresh
doubled_refresh_iff rate doubled = (λ e. ground arith, λ b. ground arith)
