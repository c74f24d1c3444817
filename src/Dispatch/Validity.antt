-- ===== src/Dispatch/Validity.antt =====
-- No request of crates/luminal-vgd-driver/src/dispatch.rs panics, and each keeps the session table
-- valid.
use luminal_vgd.Prelude.{
  ℕ, zero, suc, ◌+◌, ◌%◌, ◌^◌, ltb, Option, some, List, [], ◌∷◌, take, ◌≡◌, ◌≢◌, refl, inl, inr, In,
  ◌≤◌, length, replicate, put_at-some, arith, Result-cases,
}
use luminal_vgd.Prelude.Bytes.{Bytes}
use luminal_vgd.Prelude.Int.{ℤ}
use luminal_vgd.Prelude.Map.{lookup, values, In-values→lookup}
use luminal_vgd.Proto.{PermanentPoolConfig, abi_max_monitors}
use luminal_vgd.Proto.Messages.{GetStatusReply}
use luminal_vgd.Edid.{EdidParams}
use luminal_vgd.Modes.{Mode}
use luminal_vgd.Permanent.{permanent_session_id, member_request, reconcile}
use luminal_vgd.Session.State.{Monitor, SessionTable}
use luminal_vgd.Session.Create.{create_trusted}
use luminal_vgd.Session.Removal.{destroy}
use luminal_vgd.Session.Status.{
  first_mode, fill_status, zero_status, status, status_of, preferred_mode,
}
use luminal_vgd.Session.Invariant.{
  IsValid, superset_not_empty, create_trusted-IsValid, destroy-IsValid,
}
use luminal_vgd.Session.Live.{create_trusted-stored}
use luminal_vgd.Dispatch.State.{
  DeviceState, HandleCtx, Effect, Outcome, Reply, refuse_buffer, finish, size_of, plug_effect,
  monitor_edid, ring_slots,
}
use luminal_vgd.Dispatch.Pool.{Members, drop_members, create_members, first_count, apply_pool}
use luminal_vgd.Dispatch.Cases.{if-arms}

first_mode-found : (modes : List Mode) → modes ≢ [] → (x : Mode) × (first_mode modes ≡ some x)
first_mode-found [] n = absurd (n refl)
first_mode-found (x ∷ xs) n = (x, refl)

-- A monitor of a valid table has a preferred mode.
preferred_mode-found :
    (t : SessionTable) (k : ℕ) (m : Monitor)
    → IsValid t
    → lookup k t.monitors ≡ some m
    → (x : Mode) × (preferred_mode m ≡ some x)
unfolding preferred_mode
preferred_mode-found t k m v e =
    first_mode-found m.modes (superset_not_empty m.modes m.target_modes (v.monitors k m e).in_force)

fill_status-found :
    (ms : List Monitor) (reply : GetStatusReply) (i : ℕ)
    → i + length ms ≤ length reply.monitors
    → ((m : Monitor) → In m ms → (x : Mode) × (preferred_mode m ≡ some x))
    → (r : GetStatusReply) × (fill_status reply i ms ≡ some r)
unfolding fill_status
fill_status-found [] reply i room h = (reply, refl)
fill_status-found (m ∷ ms) reply i room h =
    let (pref, e) = h m (inl refl) in
    let (filled, f, same) = put_at-some reply.monitors i (status_of m pref) (omega arith) in
    rw (e, f, fill_status) (fill_status-found ms _ (i + 1) (omega arith) (λ n x. h n (inr x)))

length-take_most : (n : ℕ) (ms : List Monitor) → length (take n ms) ≤ n
length-take_most zero ms = omega arith
length-take_most (suc n) [] = omega arith
length-take_most (suc n) (m ∷ ms) = omega (arith, length-take_most n ms)

In-take : (n : ℕ) (m : Monitor) (ms : List Monitor) → In m (take n ms) → In m ms
In-take zero m ms h = absurd h
In-take (suc n) m [] h = h
In-take (suc n) m (x ∷ xs) (inl e) = inl e
In-take (suc n) m (x ∷ xs) (inr h) = inr (In-take n m xs h)

room :
    (t : SessionTable)
    → 0 + length (take abi_max_monitors (values t.monitors))
      ≤ length (replicate abi_max_monitors zero_status)
room t = omega (arith, length-take_most 16 (values t.monitors))

pub status-found :
    (t : SessionTable) (up build caps : ℕ)
    → IsValid t
    → (r : GetStatusReply) × (status t up build caps ≡ some r)
unfolding status
status-found t up build caps v = fill_status-found _ _ 0 (room t) (λ m i.
    let (k, e, _) = In-values→lookup 0 m t.monitors v.sorted (In-take 16 m (values t.monitors) i) in
    preferred_mode-found t k m v e)

drop_members-IsValid :
    (t : SessionTable) (indices : List ℕ) → IsValid t → IsValid (drop_members t indices).0
unfolding drop_members
drop_members-IsValid t [] v = v
drop_members-IsValid t (i ∷ rest) v =
    drop_members-IsValid (destroy t (permanent_session_id i)).1 rest
      (destroy-IsValid t (permanent_session_id i) v)

-- A run that returns, with a valid table.
abbrev pub Returns : Option Outcome → Type 0
Returns x = (o : Outcome) × (x ≡ some o) × IsValid o.dev.table

pub refuse_buffer-IsValid :
    (dev : DeviceState) (handle : HandleCtx)
    → IsValid dev.table
    → IsValid (refuse_buffer dev handle).dev.table
unfolding refuse_buffer
refuse_buffer-IsValid dev handle v = v

pub finish-IsValid :
    (dev : DeviceState) (handle : HandleCtx) (n : ℕ) (r : Reply) (es : List Effect)
    → IsValid dev.table
    → IsValid (finish dev handle n r es).dev.table
unfolding finish refuse_buffer
finish-IsValid dev handle n r es v =
    if-arms (λ (o : Outcome). IsValid o.dev.table) (ltb n (size_of r)) _ _ (λ _. v) v

module _ (generate : EdidParams → Bytes) where
  pub plug_effect-found :
      (t : SessionTable) (k : ℕ) (m : Monitor) (slots : ℕ)
      → IsValid t
      → lookup k t.monitors ≡ some m
      → (e : Effect) × (plug_effect generate m slots ≡ some e)
  unfolding plug_effect monitor_edid
  plug_effect-found t k m slots v e =
      let (x, f) = preferred_mode-found t k m v e in rw (f, plug_effect, monitor_edid) (_, refl)

  create_members-IsValid :
      (dev : DeviceState) (now : ℕ) (desired : PermanentPoolConfig) (t : SessionTable) (created : ℕ)
      (indices : List ℕ)
      → IsValid t
      → (r : Members) × (create_members generate dev now desired t created indices ≡ some r)
        × IsValid r.table
  unfolding create_members
  create_members-IsValid dev now desired t created [] v = (_, refl, v)
  create_members-IsValid dev now desired t created (i ∷ rest) v =
      let req = member_request desired i in
      let made = create_trusted t now req dev.cfg.caps dev.adapters dev.preferred_adapter in
      let v' = create_trusted-IsValid t now req dev.cfg.caps dev.adapters dev.preferred_adapter v in
      elim (Result-cases made.0) [
        | inr (x, refused) ↦ rw (refused, create_members) (_, refl, v')
        | inl (m, good) ↦
            let (e, plugged) = plug_effect-found made.1 req.session_id m (ring_slots dev) v' (
              create_trusted-stored t now req dev.cfg.caps dev.adapters dev.preferred_adapter 0 m
                good) in
            let next = (i + 1) % 2 ^ 32 in
            let (r, later, v'') = create_members-IsValid dev now desired made.1 next rest v' in
            rw (good, plugged, later, create_members) (_, refl, v'')
      ]

  pub apply_pool-IsValid :
      (dev : DeviceState) (now : ℕ) (desired : PermanentPoolConfig)
      → IsValid dev.table
      → (r : DeviceState × List Effect × ℤ) × (apply_pool generate dev now desired ≡ some r)
        × IsValid r.0.table
  unfolding apply_pool
  apply_pool-IsValid dev now desired v =
      let plan = reconcile dev.pool dev.pool.count desired in
      let dropped = drop_members dev.table plan.destroy in
      let (r, made, v') =
        create_members-IsValid dev now desired dropped.0 (first_count plan.create desired)
          plan.create (drop_members-IsValid dev.table plan.destroy v) in
      rw (made, apply_pool) (_, refl, v')
