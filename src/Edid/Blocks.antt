-- ===== src/Edid/Blocks.antt =====
-- The two blocks of crates/luminal-vgd-core/src/edid.rs and `generate`. The luminance codes of a
-- peak that the host asks for are computed in floating point: they are a parameter.
pub mod Checksums
pub mod Decoding
use luminal_vgd.Prelude.{
  ℕ, zero, suc, ◌+◌, ◌-◌, ◌*◌, ◌/◌, ◌%◌, ◌^◌, min, Bool, true, false, Option, none, some, List, [],
  ◌∷◌, ◌++◌, ◌==◌, if◌then◌else◌, length, replicate,
}
use luminal_vgd.Prelude.Bytes.{Bytes, to_le_bytes}
use luminal_vgd.Proto.{BitDepth, sdr8, sdr10, hdr10, hdr12}
use luminal_vgd.Modes.{Mode}
use luminal_vgd.Edid.{EdidParams}
use luminal_vgd.Edid.Timing.{DtdTiming, exact, stand_in, choose_dtd, write_dtd}
use luminal_vgd.Edid.Text.{
  decode_utf16, take_until_nul, name_or_default, write_text_descriptor, serial_text,
}

abbrev pub default_physical_width_mm : ℕ
default_physical_width_mm = 600

abbrev pub default_physical_height_mm : ℕ
default_physical_height_mm = 340

abbrev pub max_physical_size_mm : ℕ
max_physical_size_mm = 2550

pub record HdrLuminanceCodes : Type 0 where
  pub max : ℕ
  pub max_fall : ℕ
  pub min : ℕ

abbrev pub default_codes : HdrLuminanceCodes
default_codes = record { max = 138; max_fall = 96; min = 18 }

abbrev pub or_default : ℕ → ℕ → ℕ
or_default default v = if v == 0 then default else v

abbrev pub physical_width : EdidParams → ℕ
physical_width p =
    min (or_default default_physical_width_mm p.physical_width_mm) max_physical_size_mm

abbrev pub physical_height : EdidParams → ℕ
physical_height p =
    min (or_default default_physical_height_mm p.physical_height_mm) max_physical_size_mm

abbrev pub depth_code : BitDepth → ℕ
depth_code sdr8 = 0xA5
depth_code sdr10 = 0xB5
depth_code hdr10 = 0xB5
depth_code hdr12 = 0xC5

-- The bytes 0 to 53 of the base block: the identity, the size and the colours.
unfoldable pub front : EdidParams → Bytes
front p =
    0
    ∷ 0xFF
    ∷ 0xFF
    ∷ 0xFF
    ∷ 0xFF
    ∷ 0xFF
    ∷ 0xFF
    ∷ 0
    ∷ 0x38
    ∷ 0x46
    ∷ (p.product_code % 256)
    ∷ (p.product_code / 2 ^ 8 % 256)
    ∷ (to_le_bytes 4 p.serial
        ++ (0
            ∷ 36
            ∷ 1
            ∷ 4
            ∷ depth_code p.mode.bit_depth
            ∷ min (physical_width p / 10) 255
            ∷ min (physical_height p / 10) 255
            ∷ 120
            ∷ 0x02
            ∷ 0xEE
            ∷ 0x91
            ∷ 0xA3
            ∷ 0x54
            ∷ 0x4C
            ∷ 0x99
            ∷ 0x26
            ∷ 0x0F
            ∷ 0x50
            ∷ 0x54
            ∷ 0
            ∷ 0
            ∷ 0
            ∷ replicate 16 0x01))

unfoldable pub timing_descriptor : EdidParams → DtdTiming → Bytes
timing_descriptor p exact =
    write_dtd p.mode.width p.mode.height p.mode.refresh_millihz (physical_width p)
      (physical_height p)
timing_descriptor p (stand_in w h hz) = write_dtd w h hz (physical_width p) (physical_height p)

abbrev pub product_name : EdidParams → List ℕ
product_name p = name_or_default (decode_utf16 (take_until_nul p.friendly_name))

abbrev pub dummy_descriptor : Bytes
dummy_descriptor = 0 ∷ 0 ∷ 0 ∷ 0x10 ∷ replicate 14 0

-- The bytes 72 to 126: the texts, the dummy and the number of extensions.
unfoldable pub back : EdidParams → Bytes
back p =
    write_text_descriptor 0xFC (product_name p)
    ++ (write_text_descriptor 0xFF (serial_text p.serial) ++ (dummy_descriptor ++ 1 ∷ []))

unfoldable pub sum : Bytes → ℕ
sum [] = 0
sum (b ∷ bs) = b + sum bs

-- A block, given all its bytes but the last.
unfoldable pub checksum : Bytes → Bytes
checksum block = block ++ ((256 - sum block % 2 ^ 32 % 256) % 256 ∷ [])

unfoldable pub base_block : EdidParams → DtdTiming → Bytes
base_block p dtd = checksum (front p ++ (timing_descriptor p dtd ++ back p))

pub record Edid : Type 0 where
  pub bytes : Bytes
  pub dtd : DtdTiming

module _ (luminance : ℕ → HdrLuminanceCodes) where
  unfoldable pub hdr_luminance_codes : ℕ → HdrLuminanceCodes
  hdr_luminance_codes max_nits = if max_nits == 0 then default_codes else luminance max_nits

  -- The data blocks of the extension: the colorimetry and the static metadata.
  unfoldable pub data_blocks : EdidParams → Bytes
  data_blocks p =
      if p.mode.hdr
      then (let lum = hdr_luminance_codes p.max_nits in
          0xE3 ∷ 0x05 ∷ 0xC0 ∷ 0x00 ∷ 0xE6 ∷ 0x06 ∷ 0x05 ∷ 0x01 ∷ lum.max ∷ lum.max_fall ∷ lum.min
          ∷ [])
      else []

  unfoldable pub extension_block : EdidParams → Bytes
  extension_block p =
      let blocks = data_blocks p in
      let n = length blocks in
      checksum (0x02 ∷ 0x03 ∷ (4 + n) ∷ 0x00 ∷ (blocks ++ replicate (123 - n) 0))

  -- `none` is fuel of `choose_dtd` that ran out.
  unfoldable pub generate : EdidParams → Option Edid
  generate p = elim (choose_dtd p.mode) [
    | none ↦ none
    | some dtd ↦ some (record { bytes = base_block p dtd ++ extension_block p; dtd = dtd })
  ]
