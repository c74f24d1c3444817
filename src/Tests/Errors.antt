-- ===== src/Tests/Errors.antt =====
-- Adapters, for crates/luminal-vgd-core/src/adapter.rs, and error codes, for
-- crates/luminal-vgd-core/src/error.rs.
use luminal_vgd.Prelude.{inl, inr, true, false, List, [], ◌∷◌}
use luminal_vgd.Adapter.{AdapterInfo}
use luminal_vgd.Adapter.Selection.{IsHardware}

abbrev discrete : AdapterInfo
discrete = record { luid = 2; vram_bytes = 16; name = "discrete"; software = false }

abbrev twin : AdapterInfo
twin = record { luid = 1; vram_bytes = 16; name = "twin"; software = false }

abbrev warp : AdapterInfo
warp = record { luid = 3; vram_bytes = 99; name = "warp"; software = true }

abbrev enumerated : List AdapterInfo
enumerated = discrete ∷ warp ∷ twin ∷ []

swap : (x y z a : AdapterInfo) → IsHardware (x ∷ y ∷ z ∷ []) a → IsHardware (z ∷ y ∷ x ∷ []) a
swap x y z a h = record {
  listed = elim h.listed [
    | inl e ↦ inr (inr (inl e))
    | inr (inl e) ↦ inr (inl e)
    | inr (inr (inl e)) ↦ inl e
    | inr (inr (inr n)) ↦ absurd n
  ];
  real = h.real;
}
