-- ===== src/Dispatch/Life.antt =====
-- The life of a device of crates/luminal-vgd-driver/src/dispatch.rs, from its creation on: every
-- call that changes its state, with the displays that the shell has plugged.
use luminal_vgd.Prelude.{
  ℕ, ◌+◌, ◌^◌, ◌<◌, Bool, false, ◌&&◌, ◌||◌, leb, ltb, Option, some, List, [], ◌∷◌, ◌≡◌, ◌≢◌, refl,
  sym, ◌∙◌, subst, inl, inr, In, some-injective, Bool-cases, Option-cases,
}
use luminal_vgd.Prelude.Bytes.{Bytes}
use luminal_vgd.Prelude.Map.{lookup}
use luminal_vgd.Edid.{EdidParams}
use luminal_vgd.Adapter.{AdapterInfo}
use luminal_vgd.Modes.{Mode}
use luminal_vgd.Identity.{ConnectorTable, restore, restore_one, reserve}
use luminal_vgd.Identity.Table
use luminal_vgd.Permanent
use luminal_vgd.Session.State.{Monitor, SessionTable, ModeUpdateResult, restore_reservations}
use luminal_vgd.Session.State
use luminal_vgd.Session.Settle.{settle_modes}
use luminal_vgd.Session.Removal.{destroy_all}
use luminal_vgd.Session.Invariant.{IsValid, new-IsValid, settle_modes-IsValid, destroy_all-empty}
use luminal_vgd.Session.Live.{is_live, SameLive, restored}
use luminal_vgd.Dispatch.State.{
  DeviceState, HandleCtx, DriverConfig, Effect, Outcome, bad_buffer, new_device, set_adapters,
  device_teardown_reset, table_cap,
}
use luminal_vgd.Dispatch.Pool.{startup, is_ok_result}
use luminal_vgd.Dispatch.Main.{dispatch, watchdog_tick}
use luminal_vgd.Dispatch.Cases.{if-arms}
use luminal_vgd.Dispatch.Validity.{apply_pool-IsValid}
use luminal_vgd.Dispatch.Totality.{dispatch-returns}
use luminal_vgd.Dispatch.Mirror.{after_all, Mirrors, startup-Mirrors}
use luminal_vgd.Dispatch.Plugged.{dispatch-Mirrors}
use luminal_vgd.Dispatch.Sweep.{watchdog_tick-Mirrors}

abbrev pub nothing : ℕ → Bool
nothing k = false

-- `settle_modes` neither adds nor removes a session.
is_live-settle_modes :
    (t : SessionTable) (k seq : ℕ) (r : ModeUpdateResult) (published : List Mode)
    → SameLive t (settle_modes t k seq r published).1
unfolding settle_modes
is_live-settle_modes t k seq r published j = elim (Option-cases (lookup k t.monitors)) [
  | inl e ↦ rw (e, settle_modes) refl
  | inr (m, e) ↦ elim (Bool-cases (leb seq m.settled_seq || ltb t.update_seq seq)) [
    | inl old ↦ rw (e, old, settle_modes) refl
    | inr fresh ↦ rw (e, fresh, settle_modes) (restored t k m _ t.update_seq e j)
  ]
]

max_connectors-restore :
    (c : ConnectorTable) (entries : List (ℕ × ℕ))
    → (restore c entries).max_connectors ≡ c.max_connectors
unfolding restore restore_one reserve
max_connectors-restore c [] = refl
max_connectors-restore c ((d, k) ∷ rest) =
    max_connectors-restore (restore_one c d k) rest
    ∙ if-arms (λ (x : ConnectorTable). x.max_connectors ≡ c.max_connectors) _ _ _ (λ _. refl) refl

-- Whatever bytes were stored, a new device has a valid table without sessions.
new_device-IsValid :
    (cfg : DriverConfig) (persisted : Option Bytes)
    → IsValid (new_device cfg persisted).table × Mirrors nothing (new_device cfg persisted).table
unfolding new_device restore_reservations Mirrors is_live State.new
new_device-IsValid cfg persisted =
    let v = new-IsValid cfg.max_monitors cfg.watchdog_secs in
    (
      record {
        connectors = Table.restore-IsValid _ _ v.connectors;
        one_each = max_connectors-restore _ _ ∙ v.one_each;
        capped = v.capped;
        sorted = v.sorted;
        bounded = v.bounded;
        monitors = λ k m e. cc;
        identities = λ j k m n e. cc;
      },
      λ k. refl,
    )

module _ (generate : EdidParams → Bytes) where
  -- The devices that a driver can reach, each with the displays that are plugged. Each effect is
  -- applied before the next call; fewer than 2^64 - 1 mode updates are issued, and no request has
  -- an output buffer that its reply does not fit in. A report of a push names modes of the monitor.
  pub data Lives : DeviceState → (ℕ → Bool) → Type 0 where
    added :
        (cfg : DriverConfig) (persisted : Option Bytes) → Lives (new_device cfg persisted) nothing
    adapters_changed :
        (d : DeviceState) (os : ℕ → Bool) (adapters : List AdapterInfo)
        → Lives d os
        → Lives (set_adapters d adapters) os
    started :
        (d : DeviceState) (os : ℕ → Bool) (now : ℕ) (r : DeviceState × List Effect)
        → Lives d os
        → startup generate d now ≡ some r
        → Lives r.0 (after_all os r.1)
    requested :
        (d : DeviceState) (os : ℕ → Bool) (handle : HandleCtx) (token now ioctl : ℕ) (input : Bytes)
        (out_len : ℕ) (o : Outcome)
        → Lives d os
        → d.table.update_seq + 1 < 2 ^ 64
        → dispatch generate d handle token now ioctl input out_len ≡ some o
        → o.result.status ≢ bad_buffer
        → Lives o.dev (after_all os o.result.effects)
    reported :
        (d : DeviceState) (os : ℕ → Bool) (k seq : ℕ) (r : ModeUpdateResult) (published : List Mode)
        → Lives d os
        → ((m : Monitor)
            → lookup k d.table.monitors ≡ some m
            → (x : Mode) → In x published
            → In x m.modes)
        → Lives (record d { table = (settle_modes d.table k seq r published).1 }) os
    swept :
        (d : DeviceState) (os : ℕ → Bool) (now : ℕ) (r : DeviceState × List Effect)
        → Lives d os
        → watchdog_tick d now ≡ some r
        → Lives r.0 (after_all os r.1)
    torn_down :
        (d : DeviceState) (os : ℕ → Bool) → Lives d os → Lives (device_teardown_reset d) nothing

  -- Starting a device with a valid table does not panic, and leaves a valid table.
  startup-IsValid :
      (d : DeviceState) (now : ℕ)
      → IsValid d.table
      → (r : DeviceState × List Effect) × (startup generate d now ≡ some r) × IsValid r.0.table
  unfolding startup
  startup-IsValid d now v =
      elim (Bool-cases
        (ltb 0 d.pool.count && is_ok_result (Permanent.validate d.pool d.cfg.caps (table_cap d)))) [
          | inr none_kept ↦ rw (none_kept, startup) (_, refl, v)
          | inl stored ↦
              let fresh : DeviceState = record d { pool = record d.pool { count = 0 } } in
              let (r, e, v') = apply_pool-IsValid generate fresh now d.pool v in
              rw (stored, e, startup) (_, refl, v')
        ]

  torn_down-Mirrors : (d : DeviceState) → IsValid d.table → Mirrors nothing (destroy_all d.table)
  unfolding Mirrors is_live
  torn_down-Mirrors d v k = rw (destroy_all-empty d.table v).1 refl

  -- In every state that a device reaches, from whatever bytes were stored, the session table is
  -- valid and exactly its sessions are plugged: where each effect is applied before the next call,
  -- no request is answered with a refused buffer, fewer than 2^64 - 1 mode updates are issued, and
  -- each report of a push names modes of its monitor.
  pub Lives-sound :
      (d : DeviceState) (os : ℕ → Bool) → Lives d os → IsValid d.table × Mirrors os d.table
  unfolding set_adapters device_teardown_reset Mirrors
  Lives-sound d os (added cfg persisted) = new_device-IsValid cfg persisted
  Lives-sound d os (adapters_changed d' os' adapters l) = Lives-sound d' os' l
  Lives-sound d os (started d' os' now r l e) =
      let (v, h) = Lives-sound d' os' l in
      let (r', e', v') = startup-IsValid d' now v in
      (
        subst (λ x. IsValid x.0.table) (some-injective (sym e' ∙ e)) v',
        startup-Mirrors generate os' d' now r h e,
      )
  Lives-sound d os (requested d' os' handle token now ioctl input out_len o l room e served) =
      let (v, h) = Lives-sound d' os' l in
      let (o', e', v') = dispatch-returns generate d' handle out_len v token now ioctl input room in
      (
        subst (λ x. IsValid x.dev.table) (some-injective (sym e' ∙ e)) v',
        dispatch-Mirrors generate os' d' handle out_len h token now ioctl input o e served,
      )
  Lives-sound d os (reported d' os' k seq r published l within) =
      let (v, h) = Lives-sound d' os' l in
      (
        settle_modes-IsValid d'.table k seq r published v within,
        λ j. h j ∙ sym (is_live-settle_modes d'.table k seq r published j),
      )
  Lives-sound d os (swept d' os' now r l e) =
      let (v, h) = Lives-sound d' os' l in
      let (d'', es, e', v', h') = watchdog_tick-Mirrors os' d' now v h in
      let same : (d'', es) ≡ r = some-injective (sym e' ∙ e) in
      (
        subst (λ x. IsValid x.0.table) same v',
        subst (λ x. Mirrors (after_all os' x.1) x.0.table) same h',
      )
  Lives-sound d os (torn_down d' os' l) =
      let (v, h) = Lives-sound d' os' l in
      ((destroy_all-empty d'.table v).0, torn_down-Mirrors d' v)
