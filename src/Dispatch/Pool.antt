-- ===== src/Dispatch/Pool.antt =====
-- `apply_pool` and `startup` of crates/luminal-vgd-driver/src/dispatch.rs.
use luminal_vgd.Prelude.{
  ℕ, ◌+◌, ◌%◌, ◌^◌, Bool, true, false, ◌&&◌, Option, none, some, List, [], ◌∷◌, ◌++◌, if◌then◌else◌,
  ltb, min, ok, err,
}
use luminal_vgd.Prelude.Bytes.{Bytes}
use luminal_vgd.Prelude.Int.{ℤ}
use luminal_vgd.Error.{code, Fallible}
use luminal_vgd.Proto.Err
use luminal_vgd.Proto.{PermanentPoolConfig}
use luminal_vgd.Edid.{EdidParams}
use luminal_vgd.Permanent
use luminal_vgd.Permanent.{permanent_session_id, member_request, reconcile}
use luminal_vgd.Session.State.{Monitor, SessionTable}
use luminal_vgd.Session.Create.{create_trusted}
use luminal_vgd.Session.Removal.{destroy}
use luminal_vgd.Dispatch.State.{
  DeviceState, Effect, unplug_monitor, plug_effect, ring_slots, table_cap,
}

abbrev pub unplugged : ℕ → Fallible Monitor → List Effect → List Effect
unplugged sid (ok m) rest = unplug_monitor sid ∷ rest
unplugged sid (err e) rest = rest

-- The first loop: the table and the effects, in order.
unfoldable pub drop_members : SessionTable → List ℕ → SessionTable × List Effect
drop_members t [] = (t, [])
drop_members t (index ∷ rest) =
    let sid = permanent_session_id index in
    let gone = destroy t sid in
    let later = drop_members gone.1 rest in (later.0, unplugged sid gone.0 later.1)

-- What the second loop leaves.
pub record Members : Type 0 where
  pub table : SessionTable
  pub effects : List Effect
  pub result : ℤ
  pub created : ℕ

abbrev pub with_effect : Effect → Option Members → Option Members
with_effect e none = none
with_effect e (some r) = some (record r { effects = e ∷ r.effects })

abbrev pub is_ok_result : Fallible (Unit {0}) → Bool
is_ok_result (ok u) = true
is_ok_result (err e) = false

-- `created` before the second loop.
abbrev pub first_count : List ℕ → PermanentPoolConfig → ℕ
first_count [] desired = desired.count
first_count (index ∷ rest) desired = 0

abbrev pub without_code :
    Option (DeviceState × List Effect × ℤ) → Option (DeviceState × List Effect)
without_code none = none
without_code (some (dev, effects, result)) = some (dev, effects)

module _ (generate : EdidParams → Bytes) where
  -- The second loop, with `created` as it stands; it stops at the first refusal.
  unfoldable pub create_members :
      DeviceState → ℕ → PermanentPoolConfig → SessionTable → ℕ → List ℕ → Option Members
  create_members dev now_ms desired t created [] =
      some (record { table = t; effects = []; result = Err.ok; created = created })
  create_members dev now_ms desired t created (index ∷ rest) =
      let made =
        create_trusted t now_ms (member_request desired index) dev.cfg.caps dev.adapters
          dev.preferred_adapter in
      elim made.0 [
        | err e ↦ some (record { table = made.1; effects = []; result = code e; created = created })
        | ok m ↦ elim (plug_effect generate m (ring_slots dev)) [
          | none ↦ none
          | some e ↦
              with_effect e (create_members dev now_ms desired made.1 ((index + 1) % 2 ^ 32) rest)
        ]
      ]

  -- The device, the effects and the code; a panic is none.
  unfoldable pub apply_pool :
      DeviceState → ℕ → PermanentPoolConfig → Option (DeviceState × List Effect × ℤ)
  apply_pool dev now_ms desired =
      let plan = reconcile dev.pool dev.pool.count desired in
      let dropped = drop_members dev.table plan.destroy in
      elim (create_members dev now_ms desired dropped.0 (first_count plan.create desired)
        plan.create) [
          | none ↦ none
          | some r ↦ some (
            record dev {
              table = r.table;
              pool = record desired { count = min r.created desired.count };
            },
            dropped.1 ++ r.effects,
            r.result,
          )
        ]

  unfoldable pub startup : DeviceState → ℕ → Option (DeviceState × List Effect)
  startup dev now_ms =
      if ltb 0 dev.pool.count
        && is_ok_result (Permanent.validate dev.pool dev.cfg.caps (table_cap dev))
      then without_code
          (apply_pool (record dev { pool = record dev.pool { count = 0 } }) now_ms dev.pool)
      else some (dev, [])
