-- ===== src/Modes.antt =====
-- crates/luminal-vgd-core/src/modes.rs: the modes a monitor may have, and which of them it
-- publishes.
pub mod Envelope
pub mod Lists
pub mod Targets
pub mod Doubling
use luminal_vgd.Prelude.{
  ℕ, suc, ◌+◌, ◌*◌, ◌%◌, ◌^◌, ◌≡◌, ◌↔◌, Bool, true, false, not, ◌&&◌, ◌||◌, Option, none, some,
  List, [], ◌∷◌, ◌++◌, ltb, leb, ◌==◌, if◌then◌else◌, Eq, length, take, contains, ok, err, ◌>>=◌,
  ◌>>◌, ok_or, refuse_if, bit_and, arith,
}
use luminal_vgd.Error.{CoreError, Fallible, bad_mode, bad_bit_depth, hdr_unsupported}
use luminal_vgd.Proto.{
  BitDepth, sdr8, sdr10, hdr10, hdr12, from_raw, depth_eq, depth_eq_iff, ModeSpec, u32_max,
  max_modes_per_monitor,
}
use luminal_vgd.Proto.Caps

abbrev pub min_width : ℕ
min_width = 320

abbrev pub max_width : ℕ
max_width = 7680

abbrev pub min_height : ℕ
min_height = 200

abbrev pub max_height : ℕ
max_height = 4320

abbrev pub min_refresh_millihz : ℕ
min_refresh_millihz = 1

abbrev pub max_refresh_millihz : ℕ
max_refresh_millihz = u32_max

pub record Mode : Type 0 where
  pub width : ℕ
  pub height : ℕ
  pub refresh_millihz : ℕ
  pub bit_depth : BitDepth
  pub hdr : Bool

-- `(lo..=hi).contains(&x)`
abbrev pub in_range : ℕ → ℕ → ℕ → Bool
in_range lo hi x = leb lo x && leb x hi

abbrev pub is_multiple_of_two : ℕ → Bool
is_multiple_of_two n = n % 2 == 0

-- The first test of `Mode::validate`, which refuses.
unfoldable pub outside_envelope : ℕ → ℕ → ℕ → Bool
outside_envelope width height refresh_millihz =
    not (in_range min_width max_width width)
    || not (in_range min_height max_height height)
    || not (in_range min_refresh_millihz max_refresh_millihz refresh_millihz)
    || not (is_multiple_of_two width)
    || not (is_multiple_of_two height)

-- `match hdr_raw`
unfoldable pub hdr_of : ℕ → Fallible Bool
hdr_of hdr_raw = if hdr_raw == 0 then ok false else if hdr_raw == 1 then ok true else err bad_mode

-- `drv_caps & cap == 0`
abbrev pub lacks : ℕ → ℕ → Bool
lacks drv_caps cap = bit_and drv_caps cap == 0

-- `match (hdr, bit_depth)`
unfoldable pub check_depth : Bool → BitDepth → ℕ → Fallible (Unit {0})
check_depth false sdr8 drv_caps = ok tt
check_depth false sdr10 drv_caps = refuse_if (lacks drv_caps Caps.sdr10_bit) bad_bit_depth
check_depth true hdr10 drv_caps = refuse_if (lacks drv_caps Caps.hdr10) hdr_unsupported
check_depth true hdr12 drv_caps =
    refuse_if (lacks drv_caps Caps.hdr10 || lacks drv_caps Caps.hdr12_bit) hdr_unsupported
check_depth _ _ drv_caps = err bad_bit_depth

unfoldable pub validate : ℕ → ℕ → ℕ → ℕ → ℕ → ℕ → Fallible Mode
validate width height refresh_millihz bit_depth_raw hdr_raw drv_caps = do
  refuse_if (outside_envelope width height refresh_millihz) bad_mode
  bit_depth ← ok_or (from_raw bit_depth_raw) bad_bit_depth
  hdr ← hdr_of hdr_raw
  check_depth hdr bit_depth drv_caps
  ok (record {
    width = width;
    height = height;
    refresh_millihz = refresh_millihz;
    bit_depth = bit_depth;
    hdr = hdr;
  })

-- `checked_mul(2)` gives nothing where the product does not fit a `u32`.
unfoldable pub doubled_refresh : ℕ → Option ℕ
doubled_refresh refresh_millihz =
    let doubled = refresh_millihz * 2 in
    if leb doubled u32_max && in_range min_refresh_millihz max_refresh_millihz doubled
    then some doubled
    else none

-- The derived `PartialEq`.
abbrev pub bool_eq : Bool → Bool → Bool
bool_eq true b = b
bool_eq false b = not b

unfoldable pub mode_eq : Mode → Mode → Bool
mode_eq a b =
    a.width == b.width
    && a.height == b.height
    && a.refresh_millihz == b.refresh_millihz
    && depth_eq a.bit_depth b.bit_depth
    && bool_eq a.hdr b.hdr

pub mode_eq_iff : (a b : Mode) → (mode_eq a b ≡ true) ↔ (a ≡ b)
unfolding mode_eq
mode_eq_iff a b = ground (arith, depth_eq_iff a.bit_depth b.bit_depth)

instance abbrev pub mode_partial_eq : Eq Mode
mode_partial_eq = record { beq = mode_eq; beq_iff = mode_eq_iff }

-- The loop of `validate_list`: `out` grows at its end.
unfoldable pub validate_from : List Mode → List ModeSpec → ℕ → ℕ → ℕ → Fallible (List Mode)
validate_from out [] bit_depth_raw hdr_raw drv_caps = ok out
validate_from out (spec ∷ specs) bit_depth_raw hdr_raw drv_caps = do
  mode ← validate spec.width spec.height spec.refresh_millihz bit_depth_raw hdr_raw drv_caps
  refuse_if (contains out mode) bad_mode
  validate_from (out ++ mode ∷ []) specs bit_depth_raw hdr_raw drv_caps

-- `&specs[..count]` is taken behind the test of the count.
unfoldable pub validate_list : List ModeSpec → ℕ → ℕ → ℕ → ℕ → Fallible (List Mode)
validate_list specs mode_count bit_depth_raw hdr_raw drv_caps = do
  refuse_if
      (mode_count == 0 || ltb max_modes_per_monitor mode_count || ltb (length specs) mode_count)
      bad_mode
  validate_from [] (take mode_count specs) bit_depth_raw hdr_raw drv_caps

pub record TargetSelection : Type 0 where
  pub targets : List Mode
  pub accepted : ℕ
  pub rejected : ℕ
  pub first_rejected : Option ℕ

-- `get_or_insert(i)`
abbrev pub get_or_insert : Option ℕ → ℕ → Option ℕ
get_or_insert none i = some i
get_or_insert (some k) i = some k

-- One round of the loop of `select_targets`, at index `i` of the request.
unfoldable pub select_step : List Mode → ℕ → Mode → TargetSelection → TargetSelection
select_step supported i mode s =
    if not (contains supported mode)
    then record s { rejected = s.rejected + 1; first_rejected = get_or_insert s.first_rejected i }
    else record s {
      targets = if not (contains s.targets mode) then s.targets ++ mode ∷ [] else s.targets;
      accepted = s.accepted + 1;
    }

unfoldable pub select_from : List Mode → ℕ → List Mode → TargetSelection → TargetSelection
select_from supported i [] s = s
select_from supported i (mode ∷ rest) s =
    select_from supported (i + 1) rest (select_step supported i mode s)

abbrev pub nothing_selected : TargetSelection
nothing_selected = record { targets = []; accepted = 0; rejected = 0; first_rejected = none }

unfoldable pub select_targets : List Mode → List Mode → TargetSelection
select_targets supported requested = select_from supported 0 requested nothing_selected

unfoldable pub is_empty : TargetSelection → Bool
is_empty s = length s.targets == 0
