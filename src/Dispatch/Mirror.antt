-- ===== src/Dispatch/Mirror.antt =====
-- The effects of crates/luminal-vgd-driver/src/dispatch.rs as an account of which displays the
-- operating system has plugged.
use luminal_vgd.Prelude.{
  ℕ, ◌+◌, ◌%◌, ◌^◌, Bool, true, false, ◌&&◌, some, List, [], ◌∷◌, ◌++◌, ltb, ◌==◌, if◌then◌else◌,
  ◌≡◌, refl, ap, sym, ◌∙◌, inl, inr, subst, some-injective, Bool-cases, Option-cases, Result-cases,
}
use luminal_vgd.Prelude.Bytes.{Bytes}
use luminal_vgd.Prelude.Int.{ℤ}
use luminal_vgd.Proto.{PermanentPoolConfig}
use luminal_vgd.Edid.{EdidParams}
use luminal_vgd.Permanent
use luminal_vgd.Permanent.{permanent_session_id, member_request, reconcile}
use luminal_vgd.Session.State.{Monitor, SessionTable}
use luminal_vgd.Session.Create.{create_trusted}
use luminal_vgd.Session.Removal.{destroy}
use luminal_vgd.Session.Live.{
  is_live, is_live-destroy, is_live-destroy_refused, is_live-create_trusted,
  is_live-create_trusted_refused,
}
use luminal_vgd.Dispatch.State.{
  DeviceState, Effect, plug_monitor, unplug_monitor, update_targets, persist_state, monitor_edid,
  plug_effect, ring_slots, table_cap,
}
use luminal_vgd.Dispatch.Pool.{
  Members, drop_members, create_members, first_count, apply_pool, startup, is_ok_result,
}

-- The displays that are plugged once the shell has applied an effect.
unfoldable pub after : (ℕ → Bool) → Effect → ℕ → Bool
after os (plug_monitor p) k = if p.session_id == k then true else os k
after os (unplug_monitor session_id) k = if session_id == k then false else os k
after os (update_targets session_id seq modes) k = os k
after os (persist_state blob) k = os k

unfoldable pub after_all : (ℕ → Bool) → List Effect → ℕ → Bool
after_all os [] = os
after_all os (e ∷ es) = after_all (after os e) es

-- Exactly the live sessions are plugged.
unfoldable pub Mirrors : (ℕ → Bool) → SessionTable → Type 0
Mirrors os t = (k : ℕ) → os k ≡ is_live k t

pub after_all-append :
    (os : ℕ → Bool) (es fs : List Effect) → after_all os (es ++ fs) ≡ after_all (after_all os es) fs
unfolding after_all
after_all-append os [] fs = refl
after_all-append os (e ∷ es) fs = after_all-append (after os e) es fs

drop_members-Mirrors :
    (os : ℕ → Bool) (t : SessionTable) (indices : List ℕ)
    → Mirrors os t
    → Mirrors (after_all os (drop_members t indices).1) (drop_members t indices).0
unfolding drop_members after_all after Mirrors
drop_members-Mirrors os t [] h = h
drop_members-Mirrors os t (i ∷ rest) h =
    let sid = permanent_session_id i in
    elim (Result-cases (destroy t sid).0) [
      | inl (m, gone) ↦ rw gone (
          drop_members-Mirrors (after os (unplug_monitor sid)) (destroy t sid).1 rest
            (λ k. rw (is_live-destroy t sid k m gone, h k) refl))
      | inr (x, refused) ↦ rw refused (
          drop_members-Mirrors os (destroy t sid).1 rest
            (λ k. rw (is_live-destroy_refused t sid x refused) (h k)))
    ]

module _ (generate : EdidParams → Bytes) where
  -- A plug is of the monitor it is made for.
  pub plug_effect-session :
      (m : Monitor) (slots : ℕ) (e : Effect) (os : ℕ → Bool) (k : ℕ)
      → plug_effect generate m slots ≡ some e
      → after os e k ≡ (if m.session_id == k then true else os k)
  unfolding plug_effect after
  plug_effect-session m slots e os k q = elim (Option-cases (monitor_edid generate m)) [
    | inl panics ↦ let never = rw (panics, plug_effect) at q in cc
    | inr (edid, made) ↦
        subst (λ x. after os x k ≡ (if m.session_id == k then true else os k))
          (some-injective (rw (made, plug_effect) at q)) refl
  ]

  pub plugged-Mirrors :
      (os : ℕ → Bool) (t t' : SessionTable) (m : Monitor) (slots : ℕ) (e : Effect) (session_id : ℕ)
      → Mirrors os t
      → plug_effect generate m slots ≡ some e
      → ((k : ℕ)
          → (m.session_id ≡ session_id)
            × (is_live k t' ≡ (if session_id == k then true else is_live k t)))
      → Mirrors (after os e) t'
  unfolding Mirrors
  plugged-Mirrors os t t' m slots e session_id h plugged live k =
      rw (plug_effect-session m slots e os k plugged, (live k).0, (live k).1, h k) refl

  create_members-Mirrors :
      (dev : DeviceState) (now : ℕ) (desired : PermanentPoolConfig) (os : ℕ → Bool)
      (t : SessionTable) (created : ℕ) (indices : List ℕ) (r : Members)
      → Mirrors os t
      → create_members generate dev now desired t created indices ≡ some r
      → Mirrors (after_all os r.effects) r.table
  unfolding create_members after_all Mirrors
  create_members-Mirrors dev now desired os t created [] r h q =
      subst (λ x. Mirrors (after_all os x.effects) x.table) (some-injective q) h
  create_members-Mirrors dev now desired os t created (i ∷ rest) r h q =
      let req = member_request desired i in
      let made = create_trusted t now req dev.cfg.caps dev.adapters dev.preferred_adapter in
      elim (Result-cases made.0) [
        | inr (x, refused) ↦
            let q' = rw (refused, create_members) at q in
            subst (λ x. Mirrors (after_all os x.effects) x.table) (some-injective q')
              (λ k.
                h k
                ∙ sym (
                    is_live-create_trusted_refused t now req dev.cfg.caps dev.adapters
                      dev.preferred_adapter k x refused))
        | inl (m, good) ↦ elim (Option-cases (plug_effect generate m (ring_slots dev))) [
          | inl panics ↦ let never = rw (good, panics, create_members) at q in cc
          | inr (e, plugged) ↦
              let next = (i + 1) % 2 ^ 32 in
              elim (Option-cases (create_members generate dev now desired made.1 next rest)) [
                | inl panics ↦ let never = rw (good, plugged, panics, create_members) at q in cc
                | inr (r', later) ↦
                    let q' = rw (good, plugged, later, create_members) at q in
                    subst (λ x. Mirrors (after_all os x.effects) x.table) (some-injective q')
                      (create_members-Mirrors dev now desired (after os e) made.1 next rest r'
                        (plugged-Mirrors os t made.1 m (ring_slots dev) e req.session_id h plugged
                          (λ k.
                            is_live-create_trusted t now req dev.cfg.caps dev.adapters
                              dev.preferred_adapter k m good))
                        later)
              ]
        ]
      ]

  -- Applying the pool plugs and unplugs what it creates and destroys, also where a member is
  -- refused.
  pub apply_pool-Mirrors :
      (os : ℕ → Bool) (dev : DeviceState) (now : ℕ) (desired : PermanentPoolConfig)
      (r : DeviceState × List Effect × ℤ)
      → Mirrors os dev.table
      → apply_pool generate dev now desired ≡ some r
      → Mirrors (after_all os r.1) r.0.table
  unfolding apply_pool Mirrors
  apply_pool-Mirrors os dev now desired r h q =
      let plan = reconcile dev.pool dev.pool.count desired in
      let dropped = drop_members dev.table plan.destroy in
      let first = first_count plan.create desired in
      elim (Option-cases (create_members generate dev now desired dropped.0 first plan.create)) [
        | inl panics ↦ let never = rw (panics, apply_pool) at q in cc
        | inr (made, e) ↦
            subst (λ x. Mirrors (after_all os x.1) x.0.table)
              (some-injective (rw (e, apply_pool) at q))
              (λ k.
                ap (λ f. f k) (after_all-append os dropped.1 made.effects)
                ∙ create_members-Mirrors dev now desired (after_all os dropped.1) dropped.0 first
                    plan.create made (drop_members-Mirrors os dev.table plan.destroy h) e k)
      ]

  -- So does starting a device whose pool is stored.
  pub startup-Mirrors :
      (os : ℕ → Bool) (dev : DeviceState) (now : ℕ) (r : DeviceState × List Effect)
      → Mirrors os dev.table
      → startup generate dev now ≡ some r
      → Mirrors (after_all os r.1) r.0.table
  unfolding startup after_all
  startup-Mirrors os dev now r h q =
      elim (Bool-cases (
        ltb 0 dev.pool.count
        && is_ok_result (Permanent.validate dev.pool dev.cfg.caps (table_cap dev)))) [
          | inr none_kept ↦
              subst (λ x. Mirrors (after_all os x.1) x.0.table)
                (some-injective (rw (none_kept, startup) at q)) h
          | inl stored ↦
              let fresh : DeviceState = record dev { pool = record dev.pool { count = 0 } } in
              elim (Option-cases (apply_pool generate fresh now dev.pool)) [
                | inl panics ↦ let never = rw (stored, panics, startup) at q in cc
                | inr (r', e) ↦
                    subst (λ x. Mirrors (after_all os x.1) x.0.table)
                      (some-injective (rw (stored, e, startup) at q))
                      (apply_pool-Mirrors os fresh now dev.pool r' h e)
              ]
        ]
