-- ===== src/Edid/Timing/Limits.antt =====
-- Which timing crates/luminal-vgd-core/src/edid.rs chooses, and that a descriptor can hold it.
use luminal_vgd.Prelude.{
  ℕ, zero, suc, ◌/◌, ◌^◌, ◌<◌, ◌≤◌, true, false, ◌&&◌, some, ◌≡◌, ◌≢◌, ◌↔◌, ◌⊎◌, refl, inl, inr,
  Bool-cases, leb, arith,
}
use native.Mathlib.Nat.{two-pow-succ}
use luminal_vgd.Modes.{Mode}
use luminal_vgd.Edid.Timing.{
  DtdTiming, exact, stand_in, dtd_fits, clock_10khz, dtd_max_active, halve_until_fits, choose_dtd,
}

-- What a chosen timing is: the mode's own, its resolution at a lower rate of 23 Hz at least, or 4K
-- at 60 Hz.
abbrev pub IsChosen : Mode → ℕ → DtdTiming → Type 0
IsChosen mode limit exact = dtd_fits mode.width mode.height mode.refresh_millihz ≡ true
IsChosen mode limit (stand_in w h hz) =
    (dtd_fits w h hz ≡ true)
    × (((w ≡ mode.width) × (h ≡ mode.height) × (23_000 ≤ hz) × (hz ≤ limit))
        ⊎ ((w ≡ 3840) × (h ≡ 2160) × (hz ≡ 60_000)))

dtd_4k : dtd_fits 3840 2160 60_000 ≡ true
unfolding dtd_fits clock_10khz
dtd_4k = refl

halve_until_fits-IsChosen :
    (fuel : ℕ) (mode : Mode) (hz limit : ℕ)
    → hz ≤ limit
    → hz < 2 ^ fuel
    → (t : DtdTiming) × (halve_until_fits (suc fuel) mode hz ≡ some t)
      × (t ≢ exact)
      × IsChosen mode limit t
unfolding halve_until_fits
halve_until_fits-IsChosen zero mode hz limit below bounded =
    let slow : leb 23_000 hz ≡ false = ground arith in
    rw slow (stand_in 3840 2160 60_000, refl, (λ e. cc), (dtd_4k, inr (refl, refl, refl)))
halve_until_fits-IsChosen (suc fuel) mode hz limit below bounded =
    elim (Bool-cases
      (leb 23_000 hz && leb mode.width dtd_max_active && leb mode.height dtd_max_active)) [
        | inl more ↦ elim (Bool-cases (dtd_fits mode.width mode.height hz)) [
          | inl fits ↦
              rw (more, fits)
                (
                  stand_in mode.width mode.height hz,
                  refl,
                  (λ e. cc),
                  (fits, inl (refl, refl, ground arith, below)),
                )
          | inr too_fast ↦
              rw (more, too_fast)
                (halve_until_fits-IsChosen fuel mode (hz / 2) limit (omega arith)
                  (omega (arith, two-pow-succ fuel)))
        ]
        | inr over ↦
            rw over (stand_in 3840 2160 60_000, refl, (λ e. cc), (dtd_4k, inr (refl, refl, refl)))
      ]

-- Whatever the mode, the loop ends and the timing that is chosen fits a descriptor. It is the
-- mode's own exactly if that fits; otherwise it has the mode's resolution, at a rate of at least 23
-- Hz and at most half the mode's, or it is 4K at 60 Hz. The refresh rate fits its 32 bits.
pub choose_dtd-IsChosen :
    (mode : Mode)
    → mode.refresh_millihz < 2 ^ 32
    → (t : DtdTiming) × (choose_dtd mode ≡ some t)
      × ((t ≡ exact) ↔ (dtd_fits mode.width mode.height mode.refresh_millihz ≡ true))
      × IsChosen mode (mode.refresh_millihz / 2) t
unfolding choose_dtd
choose_dtd-IsChosen mode bounded =
    elim (Bool-cases (dtd_fits mode.width mode.height mode.refresh_millihz)) [
      | inl fits ↦ rw fits (exact, refl, (λ _. refl, λ _. refl), fits)
      | inr too_fast ↦
          let (t, found, other, chosen) =
            halve_until_fits-IsChosen 32 mode (mode.refresh_millihz / 2) (mode.refresh_millihz / 2)
              (omega arith) (omega arith) in
          rw (too_fast, found) (t, refl, (λ e. absurd (other e), λ e. cc), chosen)
    ]
