-- ===== src/Identity/Ranges.antt =====
-- The identity ranges of crates/luminal-vgd-core/src/identity.rs: no identity that the driver makes
-- for the permanent pool is one that it makes for a session.
use luminal_vgd.Prelude.{
  ℕ, ◌+◌, ◌*◌, ◌/◌, ◌%◌, ◌^◌, ◌≤◌, ◌<◌, ◌≡◌, ap, ◌∙◌, ◌↔◌, true, arith, bit_and, ==_iff,
}
use luminal_vgd.Prelude.Bits.{bit_or-disjoint, bit_and-low, bit_and-high}
use luminal_vgd.Identity.{
  permanent_display_id, permanent_display_id_base, is_permanent_display_id, ephemeral_display_id,
  ephemeral_display_id_base,
}

pub permanent_display_id_lem :
    (index : ℕ) → index < 2 ^ 60 → permanent_display_id index ≡ permanent_display_id_base + index
unfolding permanent_display_id
permanent_display_id_lem index h = bit_or-disjoint 60 7 index h

pub ephemeral_display_id_lem :
    (session : ℕ) → ephemeral_display_id session ≡ ephemeral_display_id_base + session % 2 ^ 60
unfolding ephemeral_display_id
ephemeral_display_id_lem session =
    let split : session ≡ session / 2 ^ 60 * 2 ^ 60 + session % 2 ^ 60 = omega arith in
    let low : bit_and session 0x0FFF_FFFF_FFFF_FFFF ≡ session % 2 ^ 60 =
      ap (λ s. bit_and s 0x0FFF_FFFF_FFFF_FFFF) split
      ∙ bit_and-low 60 (session / 2 ^ 60) (session % 2 ^ 60) (omega arith) in
    rw low (bit_or-disjoint 60 14 (session % 2 ^ 60) (omega arith))

high_nibble : (d : ℕ) → d < 2 ^ 64 → bit_and d 0xF000_0000_0000_0000 ≡ d / 2 ^ 60 * 2 ^ 60
high_nibble d h =
    let split : d ≡ d / 2 ^ 60 * 2 ^ 60 + d % 2 ^ 60 = omega arith in
    let plain : 0 + d / 2 ^ 60 ≡ d / 2 ^ 60 = omega arith in
    let top : bit_and (d / 2 ^ 60) 15 ≡ d / 2 ^ 60 =
      rw plain at (bit_and-low 4 0 (d / 2 ^ 60) (omega arith)) in
    ap (λ s. bit_and s 0xF000_0000_0000_0000) split
    ∙ bit_and-high 60 (d / 2 ^ 60) 15 (d % 2 ^ 60) (omega arith)
    ∙ ap (λ t. t * 2 ^ 60) top

-- The test for a permanent identity finds exactly the 64-bit identities in the range of 2 ^ 60 from
-- the permanent base on.
pub is_permanent_display_id_iff :
    (d : ℕ)
    → d < 2 ^ 64
    → (is_permanent_display_id d ≡ true)
      ↔ ((permanent_display_id_base ≤ d) × (d < permanent_display_id_base + 2 ^ 60))
unfolding is_permanent_display_id
is_permanent_display_id_iff d h = (
  λ e. let q = (==_iff _ _).0 e in omega (arith, high_nibble d h, q),
  λ b. (==_iff _ _).1 (omega (arith, high_nibble d h, b.0, b.1)),
)
