-- ===== src/Tests/Descriptions.antt =====
-- Descriptions of two monitors, for crates/luminal-vgd-core/src/edid.rs.
use luminal_vgd.Prelude.{
  ℕ, ◌/◌, ◌%◌, true, false, some, inl, [], ◌∷◌, ◌≡◌, ◌↔◌, refl, length, take, drop, arith,
}
use luminal_vgd.Prelude.Bytes.{from_le_bytes}
use luminal_vgd.Proto.{sdr8, hdr10}
use luminal_vgd.Modes.{Mode}
use luminal_vgd.Edid.{EdidParams}
use luminal_vgd.Edid.Timing.{
  DtdTiming, exact, stand_in, choose_dtd, dtd_fits, clock_10khz, halve_until_fits,
}
use luminal_vgd.Edid.Timing.Limits.{IsChosen, choose_dtd-IsChosen}
use luminal_vgd.Edid.Timing.Descriptor.{read_dtd}
use luminal_vgd.Edid.Text.{decode_utf16, serial_text, hex_digits}
use luminal_vgd.Edid.Text.Names.{Spells, one, stops, read_text}
use luminal_vgd.Edid.Blocks.{Edid, HdrLuminanceCodes, generate, sum}
use luminal_vgd.Edid.Blocks.Checksums.{generate-sum}
use luminal_vgd.Edid.Blocks.Decoding.{promised, generate-identifies}

abbrev full_hd : Mode
full_hd = record {
  width = 1920;
  height = 1080;
  refresh_millihz = 60_000;
  bit_depth = sdr8;
  hdr = false;
}

-- The clock of this mode does not fit a descriptor.
abbrev fast_4k : Mode
fast_4k = record {
  width = 3840;
  height = 2160;
  refresh_millihz = 240_000;
  bit_depth = hdr10;
  hdr = true;
}

abbrev params : EdidParams
params = record {
  mode = fast_4k;
  friendly_name = b'T' ∷ b'V' ∷ 0 ∷ b'x' ∷ [];
  serial = 0xABCD;
  product_code = 0x1234;
  physical_width_mm = 0;
  physical_height_mm = 0;
  max_nits = 800;
}

abbrev codes : ℕ → HdrLuminanceCodes
codes nits = record { max = 128; max_fall = 86; min = 20 }

full_hd_clock : clock_10khz 1920 1080 60_000 ≡ 14_040
unfolding clock_10khz
full_hd_clock = refl

halved : choose_dtd fast_4k ≡ some (stand_in 3840 2160 60_000)
unfolding choose_dtd dtd_fits clock_10khz halve_until_fits
halved = refl

-- A pair of surrogates, and a high one with no partner.
surrogates : decode_utf16 (0xD83D ∷ 0xDE00 ∷ 0xD83D ∷ b'a' ∷ []) ≡ 0x1F600 ∷ b'?' ∷ b'a' ∷ []
unfolding decode_utf16
surrogates = refl

serial_digits :
    serial_text 0xABCD
    ≡ b'L' ∷ b'V' ∷ b'G' ∷ b'D' ∷ b'0' ∷ b'0' ∷ b'0' ∷ b'0' ∷ b'A' ∷ b'B' ∷ b'C' ∷ b'D' ∷ []
unfolding serial_text hex_digits
serial_digits = refl

choose_dtd-IsChosen_example :
    (t : DtdTiming) × (choose_dtd fast_4k ≡ some t)
    × ((t ≡ exact) ↔ (dtd_fits 3840 2160 240_000 ≡ true))
    × IsChosen fast_4k (240_000 / 2) t
choose_dtd-IsChosen_example = choose_dtd-IsChosen fast_4k (omega arith)

generate-sum_example :
    (e : Edid) × (generate codes params ≡ some e)
    × (length e.bytes ≡ 256)
    × (sum (take 128 e.bytes) % 256 ≡ 0)
    × (sum (drop 128 e.bytes) % 256 ≡ 0)
generate-sum_example = generate-sum codes params (omega arith)

spelled : Spells (b'T' ∷ b'V' ∷ []) params.friendly_name
spelled =
    one b'T' (omega arith) (inl (omega arith))
      (one b'V' (omega arith) (inl (omega arith)) (stops (b'x' ∷ [])))

generate-identifies_example :
    (e : Edid) × (generate codes params ≡ some e)
    × (from_le_bytes 2 (drop 10 e.bytes) ≡ some (0x1234, drop 12 e.bytes))
    × (from_le_bytes 4 (drop 12 e.bytes) ≡ some (0xABCD, drop 16 e.bytes))
    × (read_text (take 13 (drop 77 e.bytes)) ≡ b'T' ∷ b'V' ∷ [])
    × (read_dtd (drop 54 e.bytes) ≡ some (promised params e.dtd))
    × ((e.dtd ≡ exact) ↔ (dtd_fits 3840 2160 240_000 ≡ true))
generate-identifies_example =
    generate-identifies codes params (b'T' ∷ b'V' ∷ []) (omega arith) (omega arith) (omega arith)
      spelled
