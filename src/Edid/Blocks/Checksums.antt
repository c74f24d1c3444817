-- ===== src/Edid/Blocks/Checksums.antt =====
-- The lengths and the checksums of the blocks of crates/luminal-vgd-core/src/edid.rs.
use luminal_vgd.Prelude.{
  ℕ, zero, suc, ◌+◌, ◌-◌, ◌%◌, ◌^◌, ◌<◌, ◌≤◌, some, List, [], ◌∷◌, ◌++◌, ◌≡◌, refl, ap, inl, inr,
  Bool-cases, length, take, drop, replicate, map, length-append, length-replicate, arith,
}
use luminal_vgd.Prelude.Bytes.{Bytes, to_le_bytes}
use luminal_vgd.Edid.{EdidParams}
use luminal_vgd.Edid.Timing.{DtdTiming, exact, stand_in, choose_dtd, write_dtd}
use luminal_vgd.Edid.Timing.Limits.{choose_dtd-IsChosen}
use luminal_vgd.Edid.Text.{text_field, write_text_descriptor, printable}
use luminal_vgd.Edid.Blocks.{
  HdrLuminanceCodes, Edid, sum, checksum, front, back, timing_descriptor, base_block, data_blocks,
  extension_block, generate,
}

sum-append : (xs ys : Bytes) → sum (xs ++ ys) ≡ sum xs + sum ys
unfolding sum
sum-append [] ys = omega arith
sum-append (x ∷ xs) ys = omega (arith, sum-append xs ys)

sum-checksum : (block : Bytes) → sum (checksum block) % 256 ≡ 0
unfolding checksum sum
sum-checksum block = omega (arith, sum-append block ((256 - sum block % 2 ^ 32 % 256) % 256 ∷ []))

length-checksum : (block : Bytes) → length (checksum block) ≡ suc (length block)
unfolding checksum
length-checksum block =
    omega (arith, length-append block ((256 - sum block % 2 ^ 32 % 256) % 256 ∷ []))

length-map : (f : ℕ → ℕ) (xs : List ℕ) → length (map f xs) ≡ length xs
length-map f [] = refl
length-map f (x ∷ xs) = ap suc (length-map f xs)

length-take_le : (n : ℕ) (xs : List ℕ) → length (take n xs) ≤ n
length-take_le zero xs = omega arith
length-take_le (suc n) [] = omega arith
length-take_le (suc n) (x ∷ xs) = omega (arith, length-take_le n xs)

-- A text always takes thirteen bytes.
pub length-text_field : (text : List ℕ) → length (text_field text) ≡ 13
unfolding text_field
length-text_field text =
    let written = map printable (take 13 text) in
    let most : length written ≤ 13 =
      omega (arith, length-map printable (take 13 text), length-take_le 13 text) in
    ground (
      arith,
      length-append written (0x0A ∷ replicate (12 - length written) 0x20),
      length-replicate {0} {A = ℕ} (12 - length written) 0x20,
    )

length-timing_descriptor :
    (p : EdidParams) (dtd : DtdTiming) → length (timing_descriptor p dtd) ≡ 18
unfolding timing_descriptor write_dtd
length-timing_descriptor p exact = refl
length-timing_descriptor p (stand_in w h hz) = refl

length-back : (p : EdidParams) → length (back p) ≡ 55
unfolding back write_text_descriptor
length-back p = simp (length-append, length-text_field)

length-base_block : (p : EdidParams) (dtd : DtdTiming) → length (base_block p dtd) ≡ 128
unfolding base_block front to_le_bytes
length-base_block p dtd =
    simp (length-checksum, length-append, length-timing_descriptor, length-back)

length-extension_block :
    (luminance : ℕ → HdrLuminanceCodes) (p : EdidParams)
    → length (extension_block luminance p) ≡ 128
unfolding extension_block data_blocks
length-extension_block luminance p = elim (Bool-cases p.mode.hdr) [
  | inl hdr ↦ rw (hdr, length-checksum) refl
  | inr sdr ↦ rw (sdr, length-checksum) refl
]

pub take-append : (xs ys : Bytes) (n : ℕ) → length xs ≡ n → take n (xs ++ ys) ≡ xs
take-append [] ys zero e = refl
take-append [] ys (suc n) e = absurd (omega arith)
take-append (x ∷ xs) ys zero e = absurd (omega arith)
take-append (x ∷ xs) ys (suc n) e = ap (λ l. x ∷ l) (take-append xs ys n (omega arith))

drop-append : (xs ys : Bytes) (n : ℕ) → length xs ≡ n → drop n (xs ++ ys) ≡ ys
drop-append [] ys zero e = refl
drop-append [] ys (suc n) e = absurd (omega arith)
drop-append (x ∷ xs) ys zero e = absurd (omega arith)
drop-append (x ∷ xs) ys (suc n) e = drop-append xs ys n (omega arith)

pub generate-some :
    (luminance : ℕ → HdrLuminanceCodes) (p : EdidParams) (dtd : DtdTiming)
    → choose_dtd p.mode ≡ some dtd
    → generate luminance p
      ≡ some (record { bytes = base_block p dtd ++ extension_block luminance p; dtd = dtd })
unfolding generate
generate-some luminance p dtd chosen = rw (chosen, generate) refl

-- Whatever the parameters and the luminance codes, a description is generated; it has 256 bytes,
-- and the bytes of each of its two blocks of 128 add up to a multiple of 256. The refresh rate
-- fits its 32 bits.
pub generate-sum :
    (luminance : ℕ → HdrLuminanceCodes) (p : EdidParams)
    → p.mode.refresh_millihz < 2 ^ 32
    → (e : Edid) × (generate luminance p ≡ some e)
      × (length e.bytes ≡ 256)
      × (sum (take 128 e.bytes) % 256 ≡ 0)
      × (sum (drop 128 e.bytes) % 256 ≡ 0)
unfolding base_block extension_block
generate-sum luminance p bounded =
    let (dtd, chosen, _, _) = choose_dtd-IsChosen p.mode bounded in
    let base = base_block p dtd in
    let ext = extension_block luminance p in
    let base_length = length-base_block p dtd in
    (
      record { bytes = base ++ ext; dtd = dtd },
      generate-some luminance p dtd chosen,
      simp (length-append, length-base_block, length-extension_block),
      rw (take-append base ext 128 base_length) (sum-checksum _),
      rw (drop-append base ext 128 base_length) (sum-checksum _),
    )
