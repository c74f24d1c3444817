-- ===== src/Edid/Timing/Descriptor.antt =====
-- The detailed timing descriptor of crates/luminal-vgd-core/src/edid.rs, read back field by field.
use luminal_vgd.Prelude.{
  ℕ, ◌+◌, ◌*◌, ◌/◌, ◌%◌, ◌^◌, ◌<◌, ◌≤◌, true, Option, none, some, ◌≡◌, ap, ◌∙◌, ◌∷◌, bit_or,
  bit_and, arith,
}
use luminal_vgd.Prelude.Bits.{bit_or-disjoint, bit_and-low}
use luminal_vgd.Prelude.Bytes.{Bytes}
use luminal_vgd.Edid.Timing.{clock_10khz, dtd_fits, write_dtd, high_nibble, hblank, vblank}

pub record Timing : Type 0 where
  pub clock : ℕ
  pub h_active : ℕ
  pub h_blank : ℕ
  pub v_active : ℕ
  pub v_blank : ℕ
  pub width_mm : ℕ
  pub height_mm : ℕ

-- The fields as the descriptor's layout defines them: eight low bits, and four high bits in a byte
-- that two fields share.
unfoldable pub read_dtd : Bytes → Option Timing
read_dtd (c0 ∷ c1 ∷ h ∷ hb ∷ hh ∷ v ∷ vb ∷ vh ∷ b8 ∷ b9 ∷ b10 ∷ b11 ∷ pw ∷ ph ∷ ps ∷ rest) =
    some (record {
      clock = c0 + 256 * c1;
      h_active = h + 256 * (hh / 16);
      h_blank = hb + 256 * (hh % 16);
      v_active = v + 256 * (vh / 16);
      v_blank = vb + 256 * (vh % 16);
      width_mm = pw + 256 * (ps / 16);
      height_mm = ph + 256 * (ps % 16);
    })
read_dtd _ = none

shared_byte : (x y : ℕ) → x < 2 ^ 12 → y < 2 ^ 4 → bit_or (high_nibble x) y ≡ x / 2 ^ 8 * 2 ^ 4 + y
shared_byte x y h k =
    let top : high_nibble x ≡ x / 2 ^ 8 * 2 ^ 4 = omega arith in
    rw top (bit_or-disjoint 4 (x / 2 ^ 8) y k)

low_nibble : (y : ℕ) → y < 2 ^ 4 → bit_and y 0x0F ≡ y
low_nibble y h = ap (λ x. bit_and x 0x0F) (omega arith) ∙ bit_and-low 4 0 y h

-- A descriptor reads back as the timing that was written, the clock, both blankings and the
-- physical size included, whenever the timing fits and the sizes have twelve bits.
pub read-write_dtd :
    (w h hz phys_w phys_h : ℕ)
    → dtd_fits w h hz ≡ true
    → phys_w < 2 ^ 12
    → phys_h < 2 ^ 12
    → read_dtd (write_dtd w h hz phys_w phys_h)
      ≡ some (record {
        clock = clock_10khz w h hz;
        h_active = w;
        h_blank = hblank;
        v_active = h;
        v_blank = vblank;
        width_mm = phys_w;
        height_mm = phys_h;
      })
unfolding read_dtd write_dtd dtd_fits
read-write_dtd w h hz phys_w phys_h fits small_w small_h =
    let clock_fits : clock_10khz w h hz ≤ 65_535 = ground arith in
    let w_fits : w < 2 ^ 12 = ground arith in
    let h_fits : h < 2 ^ 12 = ground arith in
    let byte : phys_h / 2 ^ 8 % 256 ≡ phys_h / 2 ^ 8 = omega arith in
    let size : bit_or (high_nibble phys_w) (bit_and (phys_h / 2 ^ 8 % 256) 0x0F)
        ≡ phys_w / 2 ^ 8 * 2 ^ 4 + phys_h / 2 ^ 8 =
      rw (byte, low_nibble (phys_h / 2 ^ 8) (omega arith))
        (shared_byte phys_w (phys_h / 2 ^ 8) small_w (omega arith)) in
    rw (size, shared_byte w 0 w_fits (omega arith), shared_byte h 0 h_fits (omega arith))
      (ground arith)
