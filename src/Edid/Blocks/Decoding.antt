-- ===== src/Edid/Blocks/Decoding.antt =====
-- What a reader of the blocks of crates/luminal-vgd-core/src/edid.rs finds at the offsets of the
-- standard.
use luminal_vgd.Prelude.{
  ℕ, ◌/◌, ◌^◌, ◌<◌, true, some, List, ◌++◌, ◌≡◌, ◌↔◌, refl, ap, ◌∙◌, length, take, drop, arith,
}
use mathlib.Core.List.{append_assoc}
use luminal_vgd.Prelude.Bytes.{Bytes, to_le_bytes, from_le_bytes, from-to_le_bytes, Fits-2, Fits-4}
use luminal_vgd.Edid.{EdidParams}
use luminal_vgd.Edid.Timing.{DtdTiming, exact, stand_in, write_dtd, dtd_fits, clock_10khz}
use luminal_vgd.Edid.Timing.Limits.{choose_dtd-IsChosen, IsChosen}
use luminal_vgd.Edid.Timing.Descriptor.{Timing, read_dtd, read-write_dtd}
use luminal_vgd.Edid.Text.{text_field, write_text_descriptor}
use luminal_vgd.Edid.Text.Names.{Spells, read_text, shown_name, read-name_field}
use luminal_vgd.Edid.Blocks.{
  HdrLuminanceCodes, Edid, front, back, timing_descriptor, base_block, extension_block, checksum,
  generate, product_name, physical_width, physical_height,
}
use luminal_vgd.Edid.Blocks.Checksums.{generate-some, length-text_field, take-append}

abbrev pub timing : EdidParams → ℕ → ℕ → ℕ → Timing
timing p w h hz = record {
  clock = clock_10khz w h hz;
  h_active = w;
  h_blank = 160;
  v_active = h;
  v_blank = 45;
  width_mm = physical_width p;
  height_mm = physical_height p;
}

-- The timing that a description promises.
abbrev pub promised : EdidParams → DtdTiming → Timing
promised p exact = timing p p.mode.width p.mode.height p.mode.refresh_millihz
promised p (stand_in w h hz) = timing p w h hz

regroup : (xs a b c : Bytes) → ((xs ++ a) ++ b) ++ c ≡ xs ++ (a ++ (b ++ c))
regroup xs a b c = simp append_assoc

take-regroup : (xs a b c : Bytes) (n : ℕ) → length xs ≡ n → take n (((xs ++ a) ++ b) ++ c) ≡ xs
take-regroup xs a b c n e = ap (take n) (regroup xs a b c) ∙ take-append xs _ n e

read_dtd-append :
    (w h hz phys_w phys_h : ℕ) (rest : Bytes)
    → read_dtd (write_dtd w h hz phys_w phys_h ++ rest) ≡ read_dtd (write_dtd w h hz phys_w phys_h)
unfolding read_dtd write_dtd
read_dtd-append w h hz phys_w phys_h rest = refl

read-timing_descriptor :
    (p : EdidParams) (limit : ℕ) (dtd : DtdTiming) (rest : Bytes)
    → IsChosen p.mode limit dtd
    → read_dtd (timing_descriptor p dtd ++ rest) ≡ some (promised p dtd)
unfolding timing_descriptor
read-timing_descriptor p limit exact rest fits =
    read_dtd-append _ _ _ _ _ rest ∙ read-write_dtd _ _ _ _ _ fits (omega arith) (omega arith)
read-timing_descriptor p limit (stand_in w h hz) rest chosen =
    read_dtd-append _ _ _ _ _ rest ∙ read-write_dtd _ _ _ _ _ chosen.0 (omega arith) (omega arith)

read-product_code :
    (p : EdidParams) (dtd : DtdTiming) (rest : Bytes)
    → p.product_code < 2 ^ 16
    → from_le_bytes 2 (drop 10 (base_block p dtd ++ rest))
      ≡ some (p.product_code, drop 12 (base_block p dtd ++ rest))
unfolding base_block checksum front to_le_bytes
read-product_code p dtd rest small =
    from-to_le_bytes 2 p.product_code _ (Fits-2 p.product_code small)

read-serial :
    (p : EdidParams) (dtd : DtdTiming) (rest : Bytes)
    → p.serial < 2 ^ 32
    → from_le_bytes 4 (drop 12 (base_block p dtd ++ rest))
      ≡ some (p.serial, drop 16 (base_block p dtd ++ rest))
unfolding base_block checksum front to_le_bytes
read-serial p dtd rest small = from-to_le_bytes 4 p.serial _ (Fits-4 p.serial small)

read-name :
    (p : EdidParams) (dtd : DtdTiming) (rest : Bytes)
    → take 13 (drop 77 (base_block p dtd ++ rest)) ≡ text_field (product_name p)
unfolding base_block checksum front to_le_bytes timing_descriptor write_dtd back
    write_text_descriptor
read-name p exact rest =
    take-regroup (text_field (product_name p)) _ _ rest 13 (length-text_field (product_name p))
read-name p (stand_in w h hz) rest =
    take-regroup (text_field (product_name p)) _ _ rest 13 (length-text_field (product_name p))

read-timing :
    (p : EdidParams) (limit : ℕ) (dtd : DtdTiming) (rest : Bytes)
    → IsChosen p.mode limit dtd
    → read_dtd (drop 54 (base_block p dtd ++ rest)) ≡ some (promised p dtd)
unfolding base_block checksum front to_le_bytes
read-timing p limit dtd rest chosen =
    ap read_dtd (regroup (timing_descriptor p dtd) (back p) _ rest)
    ∙ read-timing_descriptor p limit dtd _ chosen

-- The description of a monitor identifies it: at the offsets of the standard a reader finds the
-- product code, the serial number, the first thirteen characters of the name that the units of the
-- friendly name spell in UTF-16 up to a zero ("Luminal VGD" where they spell nothing, and a question
-- mark for each character that is not printable ASCII) and a timing, which is the mode's own exactly
-- if that fits a descriptor. The product code, the serial number and the refresh rate fit their
-- widths.
pub generate-identifies :
    (luminance : ℕ → HdrLuminanceCodes) (p : EdidParams) (name : List ℕ)
    → p.mode.refresh_millihz < 2 ^ 32
    → p.product_code < 2 ^ 16
    → p.serial < 2 ^ 32
    → Spells name p.friendly_name
    → (e : Edid) × (generate luminance p ≡ some e)
      × (from_le_bytes 2 (drop 10 e.bytes) ≡ some (p.product_code, drop 12 e.bytes))
      × (from_le_bytes 4 (drop 12 e.bytes) ≡ some (p.serial, drop 16 e.bytes))
      × (read_text (take 13 (drop 77 e.bytes)) ≡ shown_name name)
      × (read_dtd (drop 54 e.bytes) ≡ some (promised p e.dtd))
      × ((e.dtd ≡ exact) ↔ (dtd_fits p.mode.width p.mode.height p.mode.refresh_millihz ≡ true))
generate-identifies luminance p name bounded small_product small_serial spelled =
    let (dtd, chosen, own, fits) = choose_dtd-IsChosen p.mode bounded in
    let ext = extension_block luminance p in
    (
      record { bytes = base_block p dtd ++ ext; dtd = dtd },
      generate-some luminance p dtd chosen,
      read-product_code p dtd ext small_product,
      read-serial p dtd ext small_serial,
      ap read_text (read-name p dtd ext) ∙ read-name_field name p.friendly_name spelled,
      read-timing p (p.mode.refresh_millihz / 2) dtd ext fits,
      own,
    )
