-- ===== src/Tests/Pools.antt =====
-- A pool of three members reduced to one, for crates/luminal-vgd-core/src/permanent.rs.
use luminal_vgd.Prelude.{ℕ, some, ◌≡◌, refl, [], ◌∷◌, ok}
use luminal_vgd.Proto.{PermanentPoolConfig, from_raw}
use luminal_vgd.Modes.{Mode, validate_list, outside_envelope, hdr_of, check_depth}
use luminal_vgd.Modes
use luminal_vgd.Permanent.{validate, reconcile}
use luminal_vgd.Permanent.Pool.{Pool, members, carried_out, reconcile_reaches}

abbrev three : PermanentPoolConfig
three = record {
  count = 3;
  width = 1920;
  height = 1080;
  refresh_millihz = 60_000;
  bit_depth = 8;
  hdr = 0;
  physical_width_mm = 0;
  physical_height_mm = 0;
  name = 80 ∷ [];
}

abbrev one : PermanentPoolConfig
one = record three { count = 1 }

reconcile_reaches_example :
    (after : Pool) × (carried_out (reconcile three 3 one) one (members three 3) ≡ some after)
    × ((i : ℕ) → after i ≡ members one 1 i)
reconcile_reaches_example = reconcile_reaches three one 3

is_valid : validate three 0 10 ≡ ok tt
unfolding validate Modes.validate outside_envelope hdr_of check_depth from_raw
is_valid = refl
