-- ===== src/Modes/Envelope.antt =====
-- Which requests `Mode::validate` of crates/luminal-vgd-core/src/modes.rs accepts, and what it
-- makes of them.
use luminal_vgd.Prelude.{
  ℕ, ◌%◌, ◌≤◌, ◌<◌, ◌≡◌, refl, sym, subst, ◌≢◌, ◌↔◌, inl, inr, Bool, true, false, none, some, arith,
  ok, err, bit_and, Bool-cases, Result-cases, ap, Option-cases, refuse_if,
}
use luminal_vgd.Error.{CoreError, bad_mode, bad_bit_depth, hdr_unsupported}
use luminal_vgd.Proto.{
  BitDepth, sdr8, sdr10, hdr10, hdr12, from_raw, as_raw, is_hdr, u32_max, as_raw-from_raw,
  from_raw-as_raw,
}
use luminal_vgd.Proto.Caps
use luminal_vgd.Modes.{Mode, validate, hdr_of, check_depth, outside_envelope}

-- Both dimensions even and within the supported rectangle, and a positive 32-bit refresh rate.
pub record InEnvelope (width height refresh_millihz : ℕ) : Type 0 where
  pub width_low : 320 ≤ width
  pub width_high : width ≤ 7680
  pub width_even : width % 2 ≡ 0
  pub height_low : 200 ≤ height
  pub height_high : height ≤ 4320
  pub height_even : height % 2 ≡ 0
  pub refresh_low : 1 ≤ refresh_millihz
  pub refresh_high : refresh_millihz ≤ u32_max

-- The capabilities that a depth needs.
abbrev pub Capable : BitDepth → ℕ → Type 0
Capable sdr8 drv_caps = Unit {0}
Capable sdr10 drv_caps = bit_and drv_caps Caps.sdr10_bit ≢ 0
Capable hdr10 drv_caps = bit_and drv_caps Caps.hdr10 ≢ 0
Capable hdr12 drv_caps = (bit_and drv_caps Caps.hdr10 ≢ 0) × (bit_and drv_caps Caps.hdr12_bit ≢ 0)

abbrev pub flag : Bool → ℕ
flag true = 1
flag false = 0

-- The mode is one that the driver can offer, under its capabilities.
pub record IsOffered (drv_caps : ℕ) (m : Mode) : Type 0 where
  pub envelope : InEnvelope m.width m.height m.refresh_millihz
  pub range : is_hdr m.bit_depth ≡ m.hdr
  pub capable : Capable m.bit_depth drv_caps

outside-InEnvelope : (w h hz : ℕ) → (outside_envelope w h hz ≡ false) ↔ InEnvelope w h hz
unfolding outside_envelope
outside-InEnvelope w h hz = (λ e. ground arith, λ v. ground arith)

check_depth-Capable :
    (hdr : Bool) (d : BitDepth) (c : ℕ)
    → (check_depth hdr d c ≡ ok tt) ↔ ((is_hdr d ≡ hdr) × Capable d c)
unfolding check_depth is_hdr
check_depth-Capable true sdr8 c = (λ e. cc, λ v. cc)
check_depth-Capable true sdr10 c = (λ e. cc, λ v. cc)
check_depth-Capable true hdr10 c = (λ e. ground arith, λ v. ground arith)
check_depth-Capable true hdr12 c = (λ e. ground arith, λ v. ground arith)
check_depth-Capable false sdr8 c = (λ e. (refl, tt), λ v. refl)
check_depth-Capable false sdr10 c = (λ e. ground arith, λ v. ground arith)
check_depth-Capable false hdr10 c = (λ e. cc, λ v. cc)
check_depth-Capable false hdr12 c = (λ e. cc, λ v. cc)

hdr_of_iff : (raw : ℕ) (b : Bool) → (hdr_of raw ≡ ok b) ↔ (raw ≡ flag b)
unfolding hdr_of
hdr_of_iff raw true = (λ e. ground arith, λ v. ground arith)
hdr_of_iff raw false = (λ e. ground arith, λ v. ground arith)

-- The parts of a successful run.
record Accepted (w h hz depth hdr caps : ℕ) (m : Mode) : Type 0 where
  inside : outside_envelope w h hz ≡ false
  known : from_raw depth ≡ some m.bit_depth
  flagged : hdr_of hdr ≡ ok m.hdr
  checked : check_depth m.hdr m.bit_depth caps ≡ ok tt
  sizes : (w ≡ m.width) × (h ≡ m.height) × (hz ≡ m.refresh_millihz)

validate-Accepted :
    (w h hz depth hdr caps : ℕ) (m : Mode)
    → validate w h hz depth hdr caps ≡ ok m
    → Accepted w h hz depth hdr caps m
unfolding validate
validate-Accepted w h hz depth hdr caps m e = ground arith

-- `validate` answers `ok m` for exactly those raw values that are the raw form of `m`, where `m` is
-- a mode that the driver can offer under the given capabilities.
pub validate_iff :
    (w h hz depth hdr caps : ℕ) (m : Mode)
    → (validate w h hz depth hdr caps ≡ ok m) ↔ (
        IsOffered caps m
        × (w ≡ m.width)
        × (h ≡ m.height)
        × (hz ≡ m.refresh_millihz)
        × (depth ≡ as_raw m.bit_depth)
        × (hdr ≡ flag m.hdr))
unfolding validate
validate_iff w h hz depth hdr caps m = (
  accepted,
  λ (v, p, q, r, s, t).
      rw
        (
          p,
          q,
          r,
          (outside-InEnvelope m.width m.height m.refresh_millihz).1 v.envelope,
          s,
          from_raw-as_raw,
          (hdr_of_iff hdr m.hdr).1 t,
          (check_depth-Capable m.hdr m.bit_depth caps).1 (v.range, v.capable),
        )
        refl,
)
  where
    accepted :
        validate w h hz depth hdr caps ≡ ok m
        → IsOffered caps m
          × (w ≡ m.width)
          × (h ≡ m.height)
          × (hz ≡ m.refresh_millihz)
          × (depth ≡ as_raw m.bit_depth)
          × (hdr ≡ flag m.hdr)
    accepted e =
        let a = validate-Accepted w h hz depth hdr caps m e in
        let (p, q, r) = a.sizes in
        let fits = (check_depth-Capable m.hdr m.bit_depth caps).0 a.checked in
        (
          record {
            envelope = rw (← p, ← q, ← r) ((outside-InEnvelope w h hz).0 a.inside);
            range = fits.0;
            capable = fits.1;
          },
          p,
          q,
          r,
          sym (as_raw-from_raw depth a.known),
          (hdr_of_iff hdr m.hdr).0 a.flagged,
        )

-- The reasons for which raw values are refused, each with its error, in the order of the tests.
pub data Refused (w h hz depth hdr caps : ℕ) : CoreError → Type 0 where
  outside : ¬ InEnvelope w h hz → Refused w h hz depth hdr caps bad_mode
  unknown_depth :
      InEnvelope w h hz
      → ((d : BitDepth) → as_raw d ≢ depth)
      → Refused w h hz depth hdr caps bad_bit_depth
  bad_flag :
      (d : BitDepth)
      → InEnvelope w h hz
      → as_raw d ≡ depth
      → 1 < hdr
      → Refused w h hz depth hdr caps bad_mode
  disagreeing :
      (d : BitDepth) (b : Bool)
      → InEnvelope w h hz
      → as_raw d ≡ depth
      → hdr ≡ flag b
      → is_hdr d ≢ b
      → Refused w h hz depth hdr caps bad_bit_depth
  incapable_sdr :
      (d : BitDepth)
      → InEnvelope w h hz
      → as_raw d ≡ depth
      → hdr ≡ 0
      → is_hdr d ≡ false
      → ¬ Capable d caps
      → Refused w h hz depth hdr caps bad_bit_depth
  incapable_hdr :
      (d : BitDepth)
      → InEnvelope w h hz
      → as_raw d ≡ depth
      → hdr ≡ 1
      → is_hdr d ≡ true
      → ¬ Capable d caps
      → Refused w h hz depth hdr caps hdr_unsupported

refuse_if-err :
    (b : Bool) (a : CoreError) {e : CoreError} → refuse_if b a ≡ err e → (b ≡ true) × (a ≡ e)
refuse_if-err b a h = ground arith

-- The refusals of the last test.
module _ (w h hz depth hdr caps : ℕ) (v : InEnvelope w h hz) where
  check_depth-Refused :
      (b : Bool) (d : BitDepth) (e : CoreError)
      → as_raw d ≡ depth
      → hdr ≡ flag b
      → check_depth b d caps ≡ err e
      → Refused w h hz depth hdr caps e
  unfolding check_depth is_hdr
  check_depth-Refused true sdr8 e p q r =
      subst (Refused w h hz depth hdr caps) (cc) (disagreeing sdr8 true v p q (λ x. cc))
  check_depth-Refused true sdr10 e p q r =
      subst (Refused w h hz depth hdr caps) (cc) (disagreeing sdr10 true v p q (λ x. cc))
  check_depth-Refused true hdr10 e p q r =
      let (t, same) = refuse_if-err _ _ r in
      subst (Refused w h hz depth hdr caps) same
        (incapable_hdr hdr10 v p q refl (λ able. able (ground arith)))
  check_depth-Refused true hdr12 e p q r =
      let (t, same) = refuse_if-err _ _ r in
      subst (Refused w h hz depth hdr caps) same
        (incapable_hdr hdr12 v p q refl (λ able. ground arith))
  check_depth-Refused false sdr8 e p q r = cc
  check_depth-Refused false sdr10 e p q r =
      let (t, same) = refuse_if-err _ _ r in
      subst (Refused w h hz depth hdr caps) same
        (incapable_sdr sdr10 v p q refl (λ able. able (ground arith)))
  check_depth-Refused false hdr10 e p q r =
      subst (Refused w h hz depth hdr caps) (cc) (disagreeing hdr10 false v p q (λ x. cc))
  check_depth-Refused false hdr12 e p q r =
      subst (Refused w h hz depth hdr caps) (cc) (disagreeing hdr12 false v p q (λ x. cc))

  hdr_of-Refused :
      (d : BitDepth) (e : CoreError)
      → as_raw d ≡ depth
      → hdr_of hdr ≡ err e
      → Refused w h hz depth hdr caps e
  unfolding hdr_of
  hdr_of-Refused d e p r =
      let large : (1 < hdr) × (bad_mode ≡ e) = (ground arith, ground arith) in
      subst (Refused w h hz depth hdr caps) large.1 (bad_flag d v p large.0)

from_raw-none : (raw : ℕ) → from_raw raw ≡ none → (d : BitDepth) → as_raw d ≢ raw
from_raw-none raw h d e = cc (from_raw-as_raw d, ap from_raw e)

-- A refusal of `validate` has one of these reasons, and gives its error.
pub validate-Refused :
    (w h hz depth hdr caps : ℕ) (e : CoreError)
    → validate w h hz depth hdr caps ≡ err e
    → Refused w h hz depth hdr caps e
unfolding validate
validate-Refused w h hz depth hdr caps e r = elim (Bool-cases (outside_envelope w h hz)) [
  | inl out ↦
      subst (Refused w h hz depth hdr caps) (ground arith)
        (outside (λ v. cc ((outside-InEnvelope w h hz).1 v)))
  | inr ins ↦
      let v = (outside-InEnvelope w h hz).0 ins in
      elim (Option-cases (from_raw depth)) [
        | inl unknown ↦
            subst (Refused w h hz depth hdr caps) (ground arith)
              (unknown_depth v (from_raw-none depth unknown))
        | inr (d, known) ↦
            let p = as_raw-from_raw depth known in
            elim (Result-cases (hdr_of hdr)) [
              | inr (f, bad) ↦ hdr_of-Refused w h hz depth hdr caps v d e p (ground arith)
              | inl (b, good) ↦
                  check_depth-Refused w h hz depth hdr caps v b d e p ((hdr_of_iff hdr b).0 good)
                    (ground arith)
            ]
      ]
]
