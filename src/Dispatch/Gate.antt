-- ===== src/Dispatch/Gate.antt =====
-- The handshake as the gate of `dispatch` in crates/luminal-vgd-driver/src/dispatch.rs.
use luminal_vgd.Prelude.{
  ℕ, Bool, true, false, not, ltb, if◌then◌else◌, Option, some, [], ◌≡◌, refl, subst, inl, inr,
  some-injective, Option-cases,
}
use luminal_vgd.Prelude.Bytes.{Bytes}
use luminal_vgd.Proto.Messages.{UpdateModesRequest}
use luminal_vgd.Persist.{read_config}
use luminal_vgd.Edid.{EdidParams}
use luminal_vgd.Session.Status
use luminal_vgd.Dispatch.State.{
  DeviceState, HandleCtx, Outcome, Reply, bad_buffer_result, refuse_buffer, finish, size_of,
}
use luminal_vgd.Dispatch.Wire.{
  read_req, read_create_request, read_update_modes_request, handshake_layout, destroy_layout,
  ping_layout, adapter_layout, lease_layout,
}
use luminal_vgd.Dispatch.Handlers.{
  on_handshake, on_ping, on_destroy, on_query_lease, on_set_render_adapter, on_query_pool,
  on_get_status,
}
use luminal_vgd.Dispatch.Updates.{run_update, on_update_modes}
use luminal_vgd.Dispatch.Main.{on_create, on_set_pool, dispatch}
use luminal_vgd.Dispatch.Cases.{dispatch-arms, if-arms}

abbrev Inert : DeviceState → Outcome → Type 0
Inert dev o = (o.dev ≡ dev) × (o.result.effects ≡ [])

finish-Inert :
    (dev : DeviceState) (handle : HandleCtx) (n : ℕ) (r : Reply)
    → Inert dev (finish dev handle n r [])
unfolding finish refuse_buffer bad_buffer_result
finish-Inert dev handle n r =
    if-arms (Inert dev) (ltb n (size_of r)) _ _ (λ _. (refl, refl)) (refl, refl)

-- The arm of a request that tests the handshake.
shut {ℓ} :
    {A : Type ℓ} (P : A → Type 0) (h : Bool) (x y : A)
    → h ≡ false
    → P x
    → P (if not h then x else y)
shut P true x y e p = cc
shut P false x y e p = p

abbrev IfAny : DeviceState → Option Outcome → Type 0
IfAny dev x = (o : Outcome) → x ≡ some o → Inert dev o

IfAny-some : (dev : DeviceState) (o : Outcome) → Inert dev o → IfAny dev (some o)
IfAny-some dev o i o' q = subst (Inert dev) (some-injective q) i

module _ (generate : EdidParams → Bytes) (dev : DeviceState) (handle : HandleCtx) (n : ℕ)
    (closed : handle.handshaken ≡ false) where
  refuse_buffer-Inert : Inert dev (refuse_buffer dev handle)
  unfolding refuse_buffer bad_buffer_result
  refuse_buffer-Inert = (refl, refl)

  on_handshake-Inert : (input : Bytes) → Inert dev (on_handshake dev handle input n)
  unfolding on_handshake
  on_handshake-Inert input = elim (Option-cases (read_req 4 handshake_layout input)) [
    | inl short ↦ rw (short, on_handshake) refuse_buffer-Inert
    | inr (req, e) ↦ rw (e, on_handshake) (finish-Inert dev _ n _)
  ]

  on_create-Inert :
      (now : ℕ) (input : Bytes) → IfAny dev (on_create generate dev handle now input n)
  unfolding on_create
  on_create-Inert now input = elim (Option-cases (read_create_request input)) [
    | inl short ↦ rw (short, on_create) (IfAny-some dev _ refuse_buffer-Inert)
    | inr (req, e) ↦
        rw (e, on_create)
          (shut (IfAny dev) handle.handshaken _ _ closed
            (IfAny-some dev _ (finish-Inert dev handle n _)))
  ]

  on_destroy-Inert : (input : Bytes) → Inert dev (on_destroy dev handle input n)
  unfolding on_destroy
  on_destroy-Inert input = elim (Option-cases (read_req 8 destroy_layout input)) [
    | inl short ↦ rw (short, on_destroy) refuse_buffer-Inert
    | inr (req, e) ↦
        rw (e, on_destroy)
          (shut (Inert dev) handle.handshaken _ _ closed (finish-Inert dev handle n _))
  ]

  run_update-Inert :
      (token : ℕ) (req : UpdateModesRequest) → IfAny dev (run_update dev handle token req n)
  unfolding run_update
  run_update-Inert token req =
      shut (IfAny dev) handle.handshaken _ _ closed (IfAny-some dev _ (finish-Inert dev handle n _))

  on_update_modes-Inert :
      (token : ℕ) (input : Bytes) → IfAny dev (on_update_modes dev handle token input n)
  unfolding on_update_modes
  on_update_modes-Inert token input = elim (Option-cases (read_update_modes_request input)) [
    | inl short ↦ rw (short, on_update_modes) (IfAny-some dev _ refuse_buffer-Inert)
    | inr (req, e) ↦
        rw (e, on_update_modes)
          (if-arms (IfAny dev) (ltb n 40) _ _ (λ _. IfAny-some dev _ refuse_buffer-Inert)
            (run_update-Inert token req))
  ]

  on_ping-Inert : (now : ℕ) (input : Bytes) → Inert dev (on_ping dev handle now input n)
  unfolding on_ping
  on_ping-Inert now input = elim (Option-cases (read_req 8 ping_layout input)) [
    | inl short ↦ rw (short, on_ping) refuse_buffer-Inert
    | inr (req, e) ↦
        rw (e, on_ping)
          (shut (Inert dev) handle.handshaken _ _ closed (finish-Inert dev handle n _))
  ]

  on_query_lease-Inert :
      (now : ℕ) (input : Bytes) → Inert dev (on_query_lease dev handle now input n)
  unfolding on_query_lease
  on_query_lease-Inert now input = elim (Option-cases (read_req 8 lease_layout input)) [
    | inl short ↦ rw (short, on_query_lease) refuse_buffer-Inert
    | inr (req, e) ↦ rw (e, on_query_lease) (finish-Inert dev handle n _)
  ]

  on_set_render_adapter-Inert :
      (input : Bytes) → Inert dev (on_set_render_adapter dev handle input n)
  unfolding on_set_render_adapter
  on_set_render_adapter-Inert input = elim (Option-cases (read_req 8 adapter_layout input)) [
    | inl short ↦ rw (short, on_set_render_adapter) refuse_buffer-Inert
    | inr (req, e) ↦
        rw (e, on_set_render_adapter)
          (shut (Inert dev) handle.handshaken _ _ closed (finish-Inert dev handle n _))
  ]

  on_set_pool-Inert :
      (now : ℕ) (input : Bytes) → IfAny dev (on_set_pool generate dev handle now input n)
  unfolding on_set_pool
  on_set_pool-Inert now input = elim (Option-cases (read_req 96 read_config input)) [
    | inl short ↦ rw (short, on_set_pool) (IfAny-some dev _ refuse_buffer-Inert)
    | inr (req, e) ↦
        rw (e, on_set_pool)
          (shut (IfAny dev) handle.handshaken _ _ closed
            (IfAny-some dev _ (finish-Inert dev handle n _)))
  ]

  on_get_status-Inert : (now : ℕ) → IfAny dev (on_get_status dev handle now n)
  unfolding on_get_status
  on_get_status-Inert now =
      elim (Option-cases (Status.status dev.table now dev.cfg.driver_build dev.cfg.caps)) [
        | inl panics ↦ λ o q. let never = rw (panics, on_get_status) at q in cc
        | inr (reply, e) ↦ rw (e, on_get_status) (IfAny-some dev _ (finish-Inert dev handle n _))
      ]

  on_query_pool-Inert : Inert dev (on_query_pool dev handle n)
  unfolding on_query_pool
  on_query_pool-Inert = finish-Inert dev handle n _

  -- On a handle that has not completed the handshake, no request of any code changes the device or
  -- asks the shell for an effect.
  pub dispatch-before_handshake :
      (token now ioctl : ℕ) (input : Bytes) (o : Outcome)
      → dispatch generate dev handle token now ioctl input n ≡ some o
      → (o.dev ≡ dev) × (o.result.effects ≡ [])
  dispatch-before_handshake token now ioctl input =
      dispatch-arms generate dev handle token now ioctl input n (IfAny dev)
        (λ _. IfAny-some dev _ (on_handshake-Inert input)) (on_create-Inert now input)
        (IfAny-some dev _ (on_destroy-Inert input)) (on_update_modes-Inert token input)
        (IfAny-some dev _ (on_ping-Inert now input))
        (IfAny-some dev _ (on_query_lease-Inert now input))
        (IfAny-some dev _ (on_set_render_adapter-Inert input)) (on_set_pool-Inert now input)
        (IfAny-some dev _ on_query_pool-Inert) (on_get_status-Inert now)
        (IfAny-some dev _ (refl, refl))
