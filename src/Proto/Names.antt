-- ===== src/Proto/Names.antt =====
-- `mod names` of crates/luminal-driver-proto/src/lib.rs: the names of shared objects, as UTF-16 in
-- a zeroed array. A text is given by its bytes.
use luminal_vgd.Prelude.{
  ℕ, zero, suc, ◌+◌, ◌-◌, ◌*◌, ◌/◌, ◌%◌, ◌^◌, List, [], ◌∷◌, replicate, set, ltb, if◌then◌else◌,
  length,
}

-- `HEX[digit]`, of a digit below 16
abbrev pub hex_digit : ℕ → ℕ
hex_digit d = if ltb d 10 then 48 + d else 87 + d

-- The array after the text was written from `at` on.
unfoldable pub put : List ℕ → ℕ → List ℕ → List ℕ
put out at [] = out
put out at (b ∷ text) = put (set out at b) (at + 1) text

-- The digits from the `d`th on, `left` of them: digit `d` of `digits` is `(value >> shift) & 0xF`.
unfoldable pub put_hex_from : List ℕ → ℕ → ℕ → ℕ → ℕ → ℕ → List ℕ
put_hex_from out at value digits d zero = out
put_hex_from out at value digits d (suc left) =
    put_hex_from (set out (at + d) (hex_digit (value / 2 ^ ((digits - 1 - d) * 4) % 16))) at value
      digits (d + 1) left

unfoldable pub put_hex : List ℕ → ℕ → ℕ → ℕ → List ℕ
put_hex out at value digits = put_hex_from out at value digits 0 digits

-- `"Global\\LuminalVGD-ring-"`
abbrev pub ring_prefix : List ℕ
ring_prefix =
    71 ∷ 108 ∷ 111 ∷ 98 ∷ 97 ∷ 108 ∷ 92 ∷ 76 ∷ 117 ∷ 109 ∷ 105 ∷ 110 ∷ 97 ∷ 108 ∷ 86 ∷ 71 ∷ 68 ∷ 45
    ∷ 114 ∷ 105 ∷ 110 ∷ 103 ∷ 45 ∷ []

unfoldable pub ring_section_name : ℕ → List ℕ
ring_section_name session_id =
    put_hex (put (replicate 64 0) 0 ring_prefix) (length ring_prefix) session_id 16
