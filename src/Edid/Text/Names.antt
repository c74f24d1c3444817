-- ===== src/Edid/Text/Names.antt =====
-- What the text descriptors of crates/luminal-vgd-core/src/edid.rs show of a name in UTF-16.
use luminal_vgd.Prelude.{
  ℕ, ◌+◌, ◌-◌, ◌*◌, ◌≤◌, ◌<◌, ◌&&◌, none, some, List, [], ◌∷◌, ◌++◌, map, leb, ltb, ◌==◌,
  if◌then◌else◌, length, take, ◌≡◌, ◌≢◌, ◌⊎◌, inl, inr, refl, ap, ◌∙◌, Bool-cases, arith,
}
use luminal_vgd.Prelude.Bytes.{Bytes}
use luminal_vgd.Edid.Text.{
  decode_utf16, decode_units, emitted, take_until_nul, name_or_default, printable, text_field,
}

-- A unit that is no surrogate, a first half of a pair, and a second half.
abbrev pub Whole : ℕ → Type 0
Whole u = (u < 0xD800) ⊎ (0xDFFF < u)

abbrev pub First : ℕ → Type 0
First u = (0xD800 ≤ u) × (u < 0xDC00)

abbrev pub Second : ℕ → Type 0
Second u = (0xDC00 ≤ u) × (u < 0xE000)

-- No second half stands at the front.
abbrev pub NoSecond : List ℕ → Type 0
NoSecond [] = Unit {0}
NoSecond (u ∷ units) = ¬ Second u

-- The characters that UTF-16 units up to the first zero stand for: a question mark for each half
-- of a pair that is alone.
pub data Spells : List ℕ → List ℕ → Type 0 where
  ends : Spells [] []
  stops : (rest : List ℕ) → Spells [] (0 ∷ rest)
  one : {cs us : List ℕ} (u : ℕ) → u ≢ 0 → Whole u → Spells cs us → Spells (u ∷ cs) (u ∷ us)
  pair :
      {cs us : List ℕ} (h l : ℕ)
      → First h
      → Second l
      → Spells cs us
      → Spells ((0x10000 + (h - 0xD800) * 1024 + (l - 0xDC00)) ∷ cs) (h ∷ l ∷ us)
  lone_first :
      {cs us : List ℕ} (h : ℕ) → First h → NoSecond us → Spells cs us → Spells (b'?' ∷ cs) (h ∷ us)
  lone_second : {cs us : List ℕ} (l : ℕ) → Second l → Spells cs us → Spells (b'?' ∷ cs) (l ∷ us)

NoSecond-cut : (us : List ℕ) → NoSecond us → NoSecond (take_until_nul us)
unfolding take_until_nul
NoSecond-cut [] n = tt
NoSecond-cut (u ∷ us) n = elim (Bool-cases (u == 0)) [
  | inl nul ↦ rw (nul, take_until_nul) tt
  | inr other ↦ rw (other, take_until_nul) n
]

-- A first half that is not completed is a question mark, and the rest is read as it is.
decode-lone :
    (h : ℕ) (us : List ℕ) → NoSecond us → decode_units (some h) us ≡ b'?' ∷ decode_units none us
unfolding decode_units emitted
decode-lone h [] n = refl
decode-lone h (u ∷ us) n = ground arith

decode-Spells : (cs us : List ℕ) → Spells cs us → decode_utf16 (take_until_nul us) ≡ cs
unfolding decode_utf16 decode_units emitted take_until_nul
decode-Spells cs us ends = refl
decode-Spells cs us (stops rest) = refl
decode-Spells (c ∷ cs) (u' ∷ us) (one u n w s) = let rest = decode-Spells cs us s in ground arith
decode-Spells (c ∷ cs) (h' ∷ l' ∷ us) (pair h l f g s) =
    let rest = decode-Spells cs us s in ground arith
decode-Spells (c ∷ cs) (h' ∷ us) (lone_first h f n s) =
    let rest = decode-Spells cs us s in
    let lone = decode-lone h (take_until_nul us) (NoSecond-cut us n) in ground arith
decode-Spells (c ∷ cs) (l' ∷ us) (lone_second l g s) =
    let rest = decode-Spells cs us s in ground arith

-- A character as a byte of the field: itself if it is printable ASCII.
abbrev pub shown : ℕ → ℕ
shown c = if leb 0x20 c && ltb c 0x7F then c else b'?'

-- What a display tool shows of a name of any length.
abbrev pub shown_name : List ℕ → List ℕ
shown_name [] = b'L' ∷ b'u' ∷ b'm' ∷ b'i' ∷ b'n' ∷ b'a' ∷ b'l' ∷ b' ' ∷ b'V' ∷ b'G' ∷ b'D' ∷ []
shown_name (c ∷ cs) = map shown (take 13 (c ∷ cs))

-- The text of a field, which ends at the first line feed.
abbrev pub read_text : Bytes → List ℕ
read_text [] = []
read_text (b ∷ bs) = if b == 0x0A then [] else b ∷ read_text bs

read_text-append : (xs ys : Bytes) → read_text (map printable xs ++ (0x0A ∷ ys)) ≡ map printable xs
read_text-append [] ys = refl
read_text-append (x ∷ xs) ys = let rest = read_text-append xs ys in ground arith

read_text-whole : (xs : Bytes) → read_text (map printable xs) ≡ map printable xs
read_text-whole [] = refl
read_text-whole (x ∷ xs) = let rest = read_text-whole xs in ground arith

read-text_field : (text : List ℕ) → read_text (text_field text) ≡ map printable (take 13 text)
unfolding text_field
read-text_field text = elim (Bool-cases (ltb (length (map printable (take 13 text))) 13)) [
  | inl short ↦ rw (short, text_field) (read_text-append (take 13 text) _)
  | inr full ↦ rw (full, text_field) (read_text-whole (take 13 text))
]

printable-shown : (xs : List ℕ) → map printable xs ≡ map shown xs
printable-shown [] = refl
printable-shown (x ∷ xs) = let rest = printable-shown xs in ground arith

shown-default : (cs : List ℕ) → map printable (take 13 (name_or_default cs)) ≡ shown_name cs
shown-default [] = refl
shown-default (c ∷ cs) = printable-shown (take 13 (c ∷ cs))

-- The field of a name shows the characters that its units spell.
pub read-name_field :
    (cs us : List ℕ)
    → Spells cs us
    → read_text (text_field (name_or_default (decode_utf16 (take_until_nul us)))) ≡ shown_name cs
read-name_field cs us s =
    read-text_field _
    ∙ ap (λ l. map printable (take 13 (name_or_default l))) (decode-Spells cs us s)
    ∙ shown-default cs
