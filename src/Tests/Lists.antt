-- ===== src/Tests/Lists.antt =====
-- Mode lists and target selections, for crates/luminal-vgd-core/src/modes.rs, and the wire values
-- of bit depths, for crates/luminal-driver-proto/src/lib.rs.
use luminal_vgd.Prelude.{ℕ, ◌≡◌, refl, ◌↔◌, false, List, [], ◌∷◌, ok, err}
use luminal_vgd.Error.{bad_mode}
use luminal_vgd.Proto.{sdr8, ModeSpec}
use luminal_vgd.Modes.{Mode, validate, validate_list, select_targets, outside_envelope}
use luminal_vgd.Modes.Lists.{IsModeList, validate_list_iff}
use luminal_vgd.Modes.Targets.{Selects, select_targets-Selects}

abbrev full_hd : Mode
full_hd = record {
  width = 1920;
  height = 1080;
  refresh_millihz = 60_000;
  bit_depth = sdr8;
  hdr = false;
}

abbrev ultra_hd : Mode
ultra_hd = record full_hd { width = 3840; height = 2160 }

abbrev hd : Mode
hd = record full_hd { width = 1280; height = 720 }

-- The request repeats an entry and has one outside the superset.
abbrev requested : List Mode
requested = hd ∷ ultra_hd ∷ full_hd ∷ hd ∷ []

select_targets-Selects_example :
    Selects (full_hd ∷ hd ∷ []) requested (select_targets (full_hd ∷ hd ∷ []) requested)
select_targets-Selects_example = select_targets-Selects (full_hd ∷ hd ∷ []) requested

too_wide : validate 7682 1080 60_000 8 0 0 ≡ err bad_mode
unfolding validate outside_envelope
too_wide = refl

abbrev specs : List ModeSpec
specs =
    record { width = 1920; height = 1080; refresh_millihz = 60_000 }
    ∷ record { width = 1280; height = 720; refresh_millihz = 60_000 }
    ∷ []

validate_list_iff_example :
    (validate_list specs 2 8 0 0 ≡ ok (full_hd ∷ hd ∷ []))
    ↔ IsModeList 8 0 0 specs 2 (full_hd ∷ hd ∷ [])
validate_list_iff_example = validate_list_iff 8 0 0 specs 2 (full_hd ∷ hd ∷ [])

abbrev rate : ℕ
rate = 60_000

abbrev doubled_rate : ℕ
doubled_rate = 120_000
