-- ===== src/Edid/Text.antt =====
-- The text descriptors of crates/luminal-vgd-core/src/edid.rs, with the standard library's
-- `char::decode_utf16`: a text is the list of its code points.
pub mod Names
use luminal_vgd.Prelude.{
  ℕ, zero, suc, ◌+◌, ◌-◌, ◌*◌, ◌/◌, ◌%◌, ◌^◌, Bool, ◌&&◌, Option, none, some, List, [], ◌∷◌, ◌++◌,
  map, leb, ltb, ◌==◌, if◌then◌else◌, length, take, replicate,
}
use luminal_vgd.Prelude.Bytes.{Bytes}

abbrev pub question_mark : ℕ
question_mark = 0x3F

abbrev is_high_surrogate : ℕ → Bool
is_high_surrogate u = leb 0xD800 u && leb u 0xDBFF

abbrev is_low_surrogate : ℕ → Bool
is_low_surrogate u = leb 0xDC00 u && leb u 0xDFFF

-- The code points that a unit completes, after a high surrogate that waits for its partner.
emitted : Option ℕ → ℕ → List ℕ
emitted none u =
    if is_high_surrogate u then [] else if is_low_surrogate u then question_mark ∷ [] else u ∷ []
emitted (some high) u =
    if is_low_surrogate u
    then (0x10000 + (high - 0xD800) * 2 ^ 10 + (u - 0xDC00)) ∷ []
    else question_mark ∷ (if is_high_surrogate u then [] else u ∷ [])

decode_units : Option ℕ → List ℕ → List ℕ
decode_units none [] = []
decode_units (some high) [] = question_mark ∷ []
decode_units waiting (u ∷ units) =
    emitted waiting u ++ decode_units (if is_high_surrogate u then some u else none) units

-- `decode_utf16`, where `unwrap_or('?')` stands for a surrogate with no partner
unfoldable pub decode_utf16 : List ℕ → List ℕ
unfolding emitted decode_units
decode_utf16 units = decode_units none units

-- `take_while(|&c| c != 0)`
unfoldable pub take_until_nul : List ℕ → List ℕ
take_until_nul [] = []
take_until_nul (c ∷ cs) = if c == 0 then [] else c ∷ take_until_nul cs

-- "Luminal VGD"
abbrev pub default_name : List ℕ
default_name = b'L' ∷ b'u' ∷ b'm' ∷ b'i' ∷ b'n' ∷ b'a' ∷ b'l' ∷ b' ' ∷ b'V' ∷ b'G' ∷ b'D' ∷ []

abbrev pub name_or_default : List ℕ → List ℕ
name_or_default [] = default_name
name_or_default (c ∷ cs) = c ∷ cs

-- `is_ascii_graphic() || ch == ' '`
abbrev pub printable : ℕ → ℕ
printable ch = if leb 0x20 ch && leb ch 0x7E then ch else question_mark

-- The text as it is written: cut at thirteen characters, or ended and padded to them.
unfoldable pub text_field : List ℕ → Bytes
text_field text =
    let written = map printable (take 13 text) in
    if ltb (length written) 13
    then written ++ (0x0A ∷ replicate (12 - length written) 0x20)
    else written

unfoldable pub write_text_descriptor : ℕ → List ℕ → Bytes
write_text_descriptor tag text = 0 ∷ 0 ∷ 0 ∷ tag ∷ 0 ∷ text_field text

abbrev pub hex_digit : ℕ → ℕ
hex_digit n = if ltb n 10 then b'0' + n else b'A' + (n - 10)

-- `{:08X}`
unfoldable pub hex_digits : ℕ → ℕ → List ℕ
hex_digits zero v = []
hex_digits (suc n) v = hex_digit (v / 16 ^ n % 16) ∷ hex_digits n v

unfoldable pub serial_text : ℕ → List ℕ
serial_text serial = b'L' ∷ b'V' ∷ b'G' ∷ b'D' ∷ hex_digits 8 serial
