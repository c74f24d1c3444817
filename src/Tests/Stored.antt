-- ===== src/Tests/Stored.antt =====
-- A stored state of one reservation and a pool, for crates/luminal-vgd-core/src/persist.rs.
use luminal_vgd.Prelude.{
  ℕ, zero, suc, ◌<◌, ◌^◌, ◌∙◌, All, none, some, [], ◌∷◌, ◌++◌, ◌≡◌, ◌≢◌, refl, sym, arith,
  replicate, take, drop, take-append-drop,
}
use luminal_vgd.Prelude.Bytes.{Bytes, to_le_bytes}
use luminal_vgd.Proto.{PermanentPoolConfig}
use luminal_vgd.Persist.{
  PersistedState, serialize, parse, put_u32, put_u64, put_reservations, put_pool, put_all, numbers,
}
use luminal_vgd.Persist.RoundTrip.{IsStored, IsConfig, parse-serialize}
use luminal_vgd.Persist.Truncation.{parse-truncated}

abbrev pool : PermanentPoolConfig
pool = record {
  count = 2;
  width = 1920;
  height = 1080;
  refresh_millihz = 60_000;
  bit_depth = 8;
  hdr = 0;
  physical_width_mm = 600;
  physical_height_mm = 340;
  name = replicate 32 65;
}

letters : (n : ℕ) → All (λ c. c < 2 ^ 16) (replicate n 65)
letters zero = tt
letters (suc n) = (omega arith, letters n)

pool-IsConfig : IsConfig pool
pool-IsConfig = record {
  count = omega arith;
  width = omega arith;
  height = omega arith;
  refresh_millihz = omega arith;
  bit_depth = omega arith;
  hdr = omega arith;
  physical_width_mm = omega arith;
  physical_height_mm = omega arith;
  name = letters 32;
  name_length = refl;
}

abbrev stored : PersistedState
stored = record { reservations = (4_097, 0) ∷ []; pool = some pool }

stored-IsStored : IsStored stored
stored-IsStored = record {
  few = omega arith;
  in_width = ((omega arith, omega arith), tt);
  pool = pool-IsConfig;
}

parse-serialize_example : parse (serialize stored ++ 1 ∷ 2 ∷ []) ≡ some stored
parse-serialize_example = parse-serialize stored (1 ∷ 2 ∷ []) stored-IsStored

-- A blob that lost its last byte.
abbrev kept : Bytes
kept = take 123 (serialize stored)

abbrev lost : Bytes
lost = drop 123 (serialize stored)

is_cut : serialize stored ≡ kept ++ lost
is_cut = sym (take-append-drop 123 (serialize stored))

one_lost : lost ≡ 0 ∷ []
unfolding serialize put_u32 put_u64 put_reservations put_pool put_all numbers to_le_bytes
one_lost = refl

something_lost : lost ≢ []
something_lost q = let e = sym one_lost ∙ q in cc

parse-truncated_example : parse kept ≡ none
parse-truncated_example = parse-truncated stored kept lost stored-IsStored is_cut something_lost
