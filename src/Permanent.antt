-- ===== src/Permanent.antt =====
-- crates/luminal-vgd-core/src/permanent.rs: the pool of always-on displays.
pub mod Pool
use luminal_vgd.Prelude.{
  ℕ, zero, suc, ◌+◌, ◌-◌, ◌≡◌, ◌↔◌, refl, Bool, true, false, not, ◌&&◌, ◌||◌, List, [], ◌∷◌, ltb,
  leb, ◌==◌, if◌then◌else◌, ok, err, bit_or, arith,
}
use luminal_vgd.Error.{Fallible, bad_pool}
use luminal_vgd.Proto.{
  ModeSpec, CreateMonitorRequest, PermanentPoolConfig, lease_timeout_disabled,
  max_permanent_displays,
}
use luminal_vgd.Modes
use luminal_vgd.Modes.{Mode}
use luminal_vgd.Identity.{permanent_display_id, permanent_display_id_base}

unfoldable pub permanent_session_id : ℕ → ℕ
permanent_session_id index = bit_or (bit_or permanent_display_id_base 0x0100_0000_0000_0000) index

-- `.map_err(|_| CoreError::BadPool)?`, before `Ok(())`
abbrev pub mode_fits : Fallible Mode → Fallible (Unit {0})
mode_fits (ok m) = ok tt
mode_fits (err e) = err bad_pool

unfoldable pub validate : PermanentPoolConfig → ℕ → ℕ → Fallible (Unit {0})
validate config drv_caps max_monitors =
    if ltb max_permanent_displays config.count || ltb max_monitors config.count
    then err bad_pool
    else if ltb 0 config.count
    then mode_fits (
        Modes.validate config.width config.height config.refresh_millihz config.bit_depth config.hdr
          drv_caps)
    else ok tt

-- `ModeSpec::default()`
abbrev pub no_mode : ModeSpec
no_mode = record { width = 0; height = 0; refresh_millihz = 0 }

unfoldable pub member_request : PermanentPoolConfig → ℕ → CreateMonitorRequest
member_request config index = record {
  session_id = permanent_session_id index;
  display_id = permanent_display_id index;
  adapter_luid = 0;
  lease_timeout_ms = lease_timeout_disabled;
  bit_depth = config.bit_depth;
  hdr = config.hdr;
  edid_serial = 0;
  flags = 0;
  mode_count = 1;
  modes =
      record {
        width = config.width;
        height = config.height;
        refresh_millihz = config.refresh_millihz;
      }
      ∷ no_mode
      ∷ no_mode
      ∷ no_mode
      ∷ [];
  physical_width_mm = config.physical_width_mm;
  physical_height_mm = config.physical_height_mm;
  friendly_name = config.name;
  max_nits = 0;
  reserved0 = 0;
}

pub record Reconcile : Type 0 where
  pub destroy : List ℕ
  pub create : List ℕ

-- `(from..from + n).collect()`
abbrev pub counted : ℕ → ℕ → List ℕ
counted from zero = []
counted from (suc n) = from ∷ counted (from + 1) n

-- `(lo..hi).collect()`, which is empty where `hi` is not above `lo`
abbrev pub range : ℕ → ℕ → List ℕ
range lo hi = counted lo (hi - lo)

-- Array equality.
unfoldable pub name_eq : List ℕ → List ℕ → Bool
name_eq [] [] = true
name_eq (a ∷ as') (b ∷ bs) = a == b && name_eq as' bs
name_eq _ _ = false

unfoldable pub settings_changed : PermanentPoolConfig → PermanentPoolConfig → Bool
settings_changed current desired =
    not (current.width == desired.width)
    || not (current.height == desired.height)
    || not (current.refresh_millihz == desired.refresh_millihz)
    || not (current.bit_depth == desired.bit_depth)
    || not (current.hdr == desired.hdr)
    || not (current.physical_width_mm == desired.physical_width_mm)
    || not (current.physical_height_mm == desired.physical_height_mm)
    || not (name_eq current.name desired.name)

unfoldable pub reconcile : PermanentPoolConfig → ℕ → PermanentPoolConfig → Reconcile
reconcile current current_count desired =
    if settings_changed current desired
    then record { destroy = range 0 current_count; create = range 0 desired.count }
    else if leb current_count desired.count
    then record { destroy = []; create = range current_count desired.count }
    else record { destroy = range desired.count current_count; create = [] }

pub name_eq_iff : (xs ys : List ℕ) → (name_eq xs ys ≡ true) ↔ (xs ≡ ys)
unfolding name_eq
name_eq_iff [] [] = (λ e. refl, λ e. refl)
name_eq_iff [] (b ∷ bs) = (λ e. cc, λ e. cc)
name_eq_iff (a ∷ as') [] = (λ e. cc, λ e. cc)
name_eq_iff (a ∷ as') (b ∷ bs) =
    (λ e. ground (arith, (name_eq_iff as' bs).0), λ e. ground (arith, (name_eq_iff as' bs).1))
