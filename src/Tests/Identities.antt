-- ===== src/Tests/Identities.antt =====
-- A table of two connectors that is full, for crates/luminal-vgd-core/src/identity.rs.
use luminal_vgd.Prelude.{ℕ, ◌≡◌, refl, some, List, [], ◌∷◌, contains}
use luminal_vgd.Prelude.Map.{lookup}
use luminal_vgd.Identity.{
  ConnectorTable, new, restore, restore_one, reserve, acquire, claim, claim_evicted, find_free,
  idle_keys, victim, evict, least_used, age_of,
}

-- One entry is stale (its connector does not exist), one takes a connector that is used.
abbrev stored : List (ℕ × ℕ)
stored = (11, 0) ∷ (12, 9) ∷ (13, 0) ∷ (14, 1) ∷ []

abbrev full_table : ConnectorTable
full_table = restore (new 2) stored

-- The new identity evicts the one without a live monitor.
evicts : (acquire full_table 20 (14 ∷ [])).0 ≡ some 0
unfolding new restore restore_one reserve acquire claim claim_evicted find_free idle_keys victim
    evict least_used age_of contains
evicts = refl

has_one : lookup 14 full_table.reservations ≡ some 1
unfolding new restore restore_one reserve contains
has_one = refl
