-- ===== src/Proto/Depth.antt =====
-- `BitDepth` of crates/luminal-driver-proto/src/lib.rs: an enum with its wire values.
use luminal_vgd.Prelude.{
  ℕ, ◌≡◌, refl, subst, Bool, true, false, Option, none, some, ◌==◌, if◌then◌else◌, arith, ◌↔◌,
}

pub data BitDepth : Type 0 where
  sdr8 sdr10 hdr10 hdr12 : BitDepth

unfoldable pub as_raw : BitDepth → ℕ
as_raw sdr8 = 8
as_raw sdr10 = 10
as_raw hdr10 = 110
as_raw hdr12 = 112

unfoldable pub from_raw : ℕ → Option BitDepth
from_raw raw =
    if raw == 8
    then some sdr8
    else if raw == 10
    then some sdr10
    else if raw == 110
    then some hdr10
    else if raw == 112
    then some hdr12
    else none

unfoldable pub is_hdr : BitDepth → Bool
is_hdr hdr10 = true
is_hdr hdr12 = true
is_hdr _ = false

pub from_raw-as_raw : (d : BitDepth) → from_raw (as_raw d) ≡ some d
unfolding from_raw as_raw
from_raw-as_raw sdr8 = refl
from_raw-as_raw sdr10 = refl
from_raw-as_raw hdr10 = refl
from_raw-as_raw hdr12 = refl

pub as_raw-from_raw : (raw : ℕ) {d : BitDepth} → from_raw raw ≡ some d → as_raw d ≡ raw
unfolding from_raw as_raw
as_raw-from_raw raw h = ground arith

-- `from_raw` reads exactly the wire values that `as_raw` writes, each as the depth it was written
-- for.
pub from_raw_iff : (raw : ℕ) (d : BitDepth) → (from_raw raw ≡ some d) ↔ (as_raw d ≡ raw)
from_raw_iff raw d =
    (λ h. as_raw-from_raw raw h, λ e. subst (λ x. from_raw x ≡ some d) e (from_raw-as_raw d))

-- The derived `PartialEq`.
unfoldable pub depth_eq : BitDepth → BitDepth → Bool
unfolding as_raw
depth_eq a b = as_raw a == as_raw b

pub depth_eq_iff : (a b : BitDepth) → (depth_eq a b ≡ true) ↔ (a ≡ b)
unfolding depth_eq as_raw
depth_eq_iff a b = ground arith
