-- ===== src/Dispatch/Sweep.antt =====
-- The watchdog sweep of crates/luminal-vgd-driver/src/dispatch.rs.
use luminal_vgd.Prelude.{
  ℕ, Bool, some, List, [], ◌∷◌, ◌≡◌, refl, ◌∙◌, subst, inl, inr, some-injective, Option-cases,
}
use luminal_vgd.Prelude.Map.{lookup, values}
use luminal_vgd.Session.State.{Monitor, SessionTable}
use luminal_vgd.Session.Removal.{tick, reap, dead, take_out}
use luminal_vgd.Session.Invariant.{IsValid, tick-Ticks, take_out-IsValid}
use luminal_vgd.Session.Live.{is_live-take_out}
use luminal_vgd.Dispatch.State.{DeviceState, Effect, unplug_monitor}
use luminal_vgd.Dispatch.Main.{watchdog_tick, unplug_all, with_snapshot}
use luminal_vgd.Dispatch.Mirror.{after, after_all, Mirrors}
use luminal_vgd.Dispatch.Kept.{after_all-snapshot}

reap-Mirrors :
    (os : ℕ → Bool) (t : SessionTable) (ids : List ℕ) (r : List Monitor × SessionTable)
    → IsValid t
    → Mirrors os t
    → reap t ids ≡ some r
    → Mirrors (after_all os (unplug_all r.0)) r.1
unfolding reap after_all after unplug_all Mirrors
reap-Mirrors os t [] r v h q =
    subst (λ x. Mirrors (after_all os (unplug_all x.0)) x.1) (some-injective q) h
reap-Mirrors os t (id ∷ ids) r v h q = elim (Option-cases (lookup id t.monitors)) [
  | inl gone ↦ let never = rw (gone, reap) at q in cc
  | inr (m, e) ↦ elim (Option-cases (reap (take_out t id m) ids)) [
    | inl panics ↦ let never = rw (e, panics, reap) at q in cc
    | inr (r', later) ↦
        subst (λ x. Mirrors (after_all os (unplug_all x.0)) x.1)
          (some-injective (rw (e, later, reap) at q))
          (reap-Mirrors (after os (unplug_monitor m.session_id)) (take_out t id m) ids r'
            (take_out-IsValid t id m v e)
            (λ k. rw (is_live-take_out t id k m, (v.monitors id m e).keyed, h k) refl) later)
  ]
]

after_all-with_snapshot :
    (os : ℕ → Bool) (dev : DeviceState) (es : List Effect) (k : ℕ)
    → after_all os (with_snapshot dev es) k ≡ after_all os es k
after_all-with_snapshot os dev [] k = refl
after_all-with_snapshot os dev (e ∷ es) k = after_all-snapshot os dev (e ∷ es) k

-- Where the table is valid and exactly the live sessions are plugged, the sweep does not panic,
-- leaves a valid table, and exactly the sessions it leaves are plugged once the shell has applied
-- its effects.
pub watchdog_tick-Mirrors :
    (os : ℕ → Bool) (dev : DeviceState) (now : ℕ)
    → IsValid dev.table
    → Mirrors os dev.table
    → (dev' : DeviceState) × (effects : List Effect) × (watchdog_tick dev now
        ≡ some (dev', effects))
      × IsValid dev'.table
      × Mirrors (after_all os effects) dev'.table
unfolding watchdog_tick Mirrors tick
watchdog_tick-Mirrors os dev now v h =
    let (gone, t', e, w) = tick-Ticks dev.table now v in
    let dev' : DeviceState = record dev { table = t' } in
    (
      dev',
      with_snapshot dev' (unplug_all gone),
      rw (e, watchdog_tick) refl,
      w.valid,
      λ k.
          after_all-with_snapshot os dev' (unplug_all gone) k
          ∙ reap-Mirrors os dev.table (dead now (values dev.table.monitors)) (gone, t') v h e k,
    )
