-- ===== src/Edid/Timing.antt =====
-- The detailed timing of crates/luminal-vgd-core/src/edid.rs. A descriptor is the list of its
-- bytes.
pub mod Limits
pub mod Descriptor
use luminal_vgd.Prelude.{
  ℕ, zero, suc, ◌+◌, ◌*◌, ◌/◌, ◌%◌, ◌^◌, Bool, true, false, ◌&&◌, Option, none, some, Option, List,
  [], ◌∷◌, leb, if◌then◌else◌, bit_and, bit_or,
}
use luminal_vgd.Prelude.Bytes.{Bytes}
use luminal_vgd.Modes.{Mode}

abbrev pub hblank : ℕ
hblank = 160

abbrev pub vblank : ℕ
vblank = 45

abbrev pub hsync_offset : ℕ
hsync_offset = 48

abbrev pub hsync_width : ℕ
hsync_width = 32

abbrev pub vsync_offset : ℕ
vsync_offset = 3

abbrev pub vsync_width : ℕ
vsync_width = 5

abbrev pub dtd_max_active : ℕ
dtd_max_active = 4095

abbrev pub dtd_max_clock_10khz : ℕ
dtd_max_clock_10khz = 65_535

pub data DtdTiming : Type 0 where
  exact : DtdTiming
  -- with the width, the height and the refresh rate in millihertz
  stand_in : ℕ → ℕ → ℕ → DtdTiming

unfoldable pub clock_10khz : ℕ → ℕ → ℕ → ℕ
clock_10khz width height refresh_millihz =
    let total = (width + hblank) % 2 ^ 32 * ((height + vblank) % 2 ^ 32) % 2 ^ 64 in
    let hz_x1000 = total * refresh_millihz % 2 ^ 64 in (hz_x1000 + 5_000_000) % 2 ^ 64 / 10_000_000

unfoldable pub dtd_fits : ℕ → ℕ → ℕ → Bool
dtd_fits width height refresh_millihz =
    leb width dtd_max_active
    && leb height dtd_max_active
    && leb (clock_10khz width height refresh_millihz) dtd_max_clock_10khz

-- The loop of `choose_dtd`, on fuel: `none` is fuel that ran out.
unfoldable pub halve_until_fits : ℕ → Mode → ℕ → Option DtdTiming
halve_until_fits zero mode hz = none
halve_until_fits (suc fuel) mode hz =
    let rest = halve_until_fits fuel mode (hz / 2) in
    if leb 23_000 hz && leb mode.width dtd_max_active && leb mode.height dtd_max_active
    then (if dtd_fits mode.width mode.height hz
        then some (stand_in mode.width mode.height hz)
        else rest)
    else some (stand_in 3840 2160 60_000)

-- A refresh rate of 32 bits is halved at most 32 times.
unfoldable pub choose_dtd : Mode → Option DtdTiming
choose_dtd mode =
    if dtd_fits mode.width mode.height mode.refresh_millihz
    then some exact
    else halve_until_fits 33 mode (mode.refresh_millihz / 2)

-- `((x >> 8) as u8) << 4`
abbrev pub high_nibble : ℕ → ℕ
high_nibble x = x / 2 ^ 8 % 256 * 2 ^ 4 % 256

unfoldable pub write_dtd : ℕ → ℕ → ℕ → ℕ → ℕ → Bytes
write_dtd width height refresh_millihz phys_w phys_h =
    let clock = clock_10khz width height refresh_millihz in
    clock % 256
    ∷ (clock / 2 ^ 8 % 256)
    ∷ (width % 256)
    ∷ (hblank % 256)
    ∷ bit_or (high_nibble width) (hblank / 2 ^ 8 % 256)
    ∷ (height % 256)
    ∷ (vblank % 256)
    ∷ bit_or (high_nibble height) (vblank / 2 ^ 8 % 256)
    ∷ hsync_offset
    ∷ hsync_width
    ∷ bit_or (vsync_offset * 2 ^ 4 % 256) vsync_width
    ∷ 0
    ∷ (phys_w % 256)
    ∷ (phys_h % 256)
    ∷ bit_or (high_nibble phys_w) (bit_and (phys_h / 2 ^ 8 % 256) 0x0F)
    ∷ 0
    ∷ 0
    ∷ 0x1E
    ∷ []
