-- ===== src/Host/Controller/Ladder.antt =====
-- The recovery ladder of crates/luminal-vgd-host/src/controller.rs against a plain list of rungs.
use luminal_vgd.Prelude.{
  ◌<◌, ◌≤◌, Bool, true, false, none, some, List, [], ◌∷◌, ◌++◌, length, ◌≡◌, refl, ap, inl, inr,
  Bool-cases, if◌then◌else◌, arith,
}
use mathlib.Core.List.{append-nil}
use luminal_vgd.Host.Notice.{FallbackReason}
use luminal_vgd.Host.Notice
use luminal_vgd.Host.Controller.{
  CaptureController, CaptureMode, wgc, dda, failed, Action, attempt_rung, fail_session, notify,
  force_keyframe, Rung, r1_recreate_pool, r2_rebuild_session, r3_rebuild_device,
  r4_cycle_virtual_display, r5_drop_to_dda, is_last, rung_result, rung_succeeded, rung_failed,
  next_rung, wgc_trip,
}

-- The capture thread attempts the current rung and reports whether it succeeded.
unfoldable pub attempt : Bool → CaptureController → List Action × CaptureController
attempt success c = elim c.ladder [ none ↦ ([], c) | some r ↦ rung_result r success c ]

-- The actions and the controller after a list of reports.
unfoldable pub climb : List Bool → CaptureController → List Action × CaptureController
climb [] c = ([], c)
climb (b ∷ bs) c = ((attempt b c).0 ++ (climb bs (attempt b c).1).0, (climb bs (attempt b c).1).1)

abbrev pub last_rungs : CaptureController → List Rung
last_rungs c = if c.cfg.dda_enabled then r5_drop_to_dda ∷ [] else []

abbrev pub device_rungs : CaptureController → List Rung
device_rungs c = if c.driver_present then r4_cycle_virtual_display ∷ last_rungs c else last_rungs c

-- The rungs above a rung that apply to the controller.
abbrev pub above : CaptureController → Rung → List Rung
above c r1_recreate_pool = r2_rebuild_session ∷ r3_rebuild_device ∷ device_rungs c
above c r2_rebuild_session = r3_rebuild_device ∷ device_rungs c
above c r3_rebuild_device = device_rungs c
above c r4_cycle_virtual_display = last_rungs c
above c r5_drop_to_dda = []

abbrev pub success_actions : FallbackReason → Rung → List Action
success_actions why r =
    if is_last r then force_keyframe ∷ notify (Notice.dda why) ∷ [] else force_keyframe ∷ []

abbrev pub failure_actions : FallbackReason → List Action
failure_actions why = notify (Notice.failed why) ∷ fail_session ∷ []

-- The actions that follow the reports, while a rung is attempted and the others wait.
unfoldable pub follow : FallbackReason → Rung → List Rung → List Bool → List Action
follow why r rs [] = []
follow why r rs (true ∷ bs) = success_actions why r
follow why r [] (false ∷ bs) = failure_actions why
follow why r (r' ∷ rs) (false ∷ bs) = attempt_rung r' ∷ follow why r' rs bs

-- The mode after the first rung that succeeds.
unfoldable pub settled : Rung → List Rung → List Bool → CaptureMode
settled r rs [] = wgc
settled r rs (true ∷ bs) = if is_last r then dda else wgc
settled r [] (false ∷ bs) = failed
settled r (r' ∷ rs) (false ∷ bs) = settled r' rs bs

abbrev pub attempting : CaptureController → Rung → FallbackReason → CaptureController
attempting c r why = record c { mode = wgc; ladder = some r; ladder_reason = some why }

abbrev pub at_rest : CaptureController → CaptureMode → CaptureController
at_rest c m = record c { mode = m; ladder = none; ladder_reason = none }

climb-at_rest :
    (bs : List Bool) (c : CaptureController) (m : CaptureMode)
    → climb bs (at_rest c m) ≡ ([], at_rest c m)
unfolding climb attempt
climb-at_rest [] c m = refl
climb-at_rest (b ∷ bs) c m = climb-at_rest bs c m

attempt-true :
    (c : CaptureController) (r : Rung) (why : FallbackReason)
    → attempt true (attempting c r why)
      ≡ (success_actions why r, at_rest c (if is_last r then dda else wgc))
unfolding attempt rung_result rung_succeeded
attempt-true c r1_recreate_pool why = refl
attempt-true c r2_rebuild_session why = refl
attempt-true c r3_rebuild_device why = refl
attempt-true c r4_cycle_virtual_display why = refl
attempt-true c r5_drop_to_dda why = refl

-- A failed rung hands over to the next that applies, and the last ends the session.
abbrev handover : CaptureController → FallbackReason → List Rung → List Action × CaptureController
handover c why [] = (failure_actions why, at_rest c failed)
handover c why (r ∷ rs) = (attempt_rung r ∷ [], attempting c r why)

attempt-false :
    (c : CaptureController) (r : Rung) (why : FallbackReason)
    → attempt false (attempting c r why) ≡ handover c why (above c r)
unfolding attempt rung_result rung_failed next_rung
attempt-false c r1_recreate_pool why = refl
attempt-false c r2_rebuild_session why = refl
attempt-false c r3_rebuild_device why = elim (Bool-cases c.driver_present) [
  | inl present ↦ rw present refl
  | inr missing ↦ elim (Bool-cases c.cfg.dda_enabled) [
    | inl enabled ↦ rw (missing, enabled) refl
    | inr disabled ↦ rw (missing, disabled) refl
  ]
]
attempt-false c r4_cycle_virtual_display why = elim (Bool-cases c.cfg.dda_enabled) [
  | inl enabled ↦ rw enabled refl
  | inr disabled ↦ rw disabled refl
]
attempt-false c r5_drop_to_dda why = refl

above-tail :
    (c : CaptureController) (r r' : Rung) (rs : List Rung) → above c r ≡ r' ∷ rs → above c r' ≡ rs
above-tail c r1_recreate_pool r' rs e = ground arith
above-tail c r2_rebuild_session r' rs e = ground arith
above-tail c r3_rebuild_device r' rs e = ground arith
above-tail c r4_cycle_virtual_display r' rs e = ground arith
above-tail c r5_drop_to_dda r' rs e = cc

climb-attempting :
    (bs : List Bool) (rs : List Rung) (c : CaptureController) (r : Rung) (why : FallbackReason)
    → above c r ≡ rs
    → ((climb bs (attempting c r why)).0 ≡ follow why r rs bs)
      × (length rs < length bs → (climb bs (attempting c r why)).1 ≡ at_rest c (settled r rs bs))
unfolding climb follow settled
climb-attempting [] rs c r why e = (refl, λ long. absurd (omega arith))
climb-attempting (true ∷ bs) rs c r why e =
    rw (attempt-true c r why, climb-at_rest bs c (if is_last r then dda else wgc), append-nil)
      (refl, λ long. refl)
climb-attempting (false ∷ bs) [] c r why e =
    rw (attempt-false c r why, e, climb-at_rest bs c failed) (refl, λ long. refl)
climb-attempting (false ∷ bs) (r' ∷ rs) c r why e =
    let rest = climb-attempting bs rs c r' why (above-tail c r r' rs e) in
    rw (attempt-false c r why, e)
      (ap (λ l. attempt_rung r' ∷ l) rest.0, λ long. rest.1 (omega arith))

ladder_length : (c : CaptureController) → length (above c r1_recreate_pool) < 5
ladder_length c = ground arith

wgc_trip-attempting :
    (c : CaptureController) (why : FallbackReason)
    → c.mode ≡ wgc
    → c.ladder ≡ none
    → wgc_trip why c ≡ (attempt_rung r1_recreate_pool ∷ [], attempting c r1_recreate_pool why)
unfolding wgc_trip
wgc_trip-attempting c why capturing resting = rw (capturing, resting) refl

-- A trip of the watchdog in WGC, with no ladder under way, is worked off within five reports,
-- whatever they say: the actions are the first rung and then those that follow the reports, rung
-- after rung of those that apply, and in the end no ladder is left and the mode is that of the
-- first rung that succeeded, or failed.
pub wgc_trip-climb :
    (c : CaptureController) (why : FallbackReason) (bs : List Bool)
    → c.mode ≡ wgc
    → c.ladder ≡ none
    → 5 ≤ length bs
    → ((wgc_trip why c).0 ≡ attempt_rung r1_recreate_pool ∷ [])
      × ((climb bs (wgc_trip why c).1).0
          ≡ follow why r1_recreate_pool (above c r1_recreate_pool) bs)
      × ((climb bs (wgc_trip why c).1).1
          ≡ at_rest c (settled r1_recreate_pool (above c r1_recreate_pool) bs))
wgc_trip-climb c why bs capturing resting enough =
    let run = climb-attempting bs (above c r1_recreate_pool) c r1_recreate_pool why refl in
    rw (wgc_trip-attempting c why capturing resting)
      (refl, run.0, run.1 (omega (arith, ladder_length c)))
