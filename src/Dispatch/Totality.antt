-- ===== src/Dispatch/Totality.antt =====
-- The requests of crates/luminal-vgd-driver/src/dispatch.rs on a valid table: none of them panics.
use luminal_vgd.Prelude.{
  ℕ, ◌+◌, ◌^◌, ◌<◌, not, ltb, some, List, [], ◌≡◌, ◌≤◌, false, length, slice_to-some, arith,
  Bool-cases, refl, inl, inr, Option-cases, Result-cases,
}
use luminal_vgd.Prelude.Bytes.{Bytes}
use luminal_vgd.Proto.{ModeSpec}
use luminal_vgd.Proto.Messages.{UpdateModesRequest}
use luminal_vgd.Persist.{read_config}
use luminal_vgd.Edid.{EdidParams}
use luminal_vgd.Permanent
use luminal_vgd.Permanent.{permanent_session_id, member_request, reconcile}
use luminal_vgd.Session.Create.{create}
use luminal_vgd.Session.Removal.{destroy}
use luminal_vgd.Session.Lease.{ping}
use luminal_vgd.Session.Invariant.{
  IsValid, create-IsValid, destroy-IsValid, ping-IsValid, update_modes-IsValid,
}
use luminal_vgd.Session.Live.{create-stored}
use luminal_vgd.Dispatch.State.{
  DeviceState, HandleCtx, Effect, Outcome, Reply, refuse_buffer, finish, ring_slots, table_cap,
}
use luminal_vgd.Dispatch.Wire.{
  read_req, read_create_request, read_update_modes_request, handshake_layout, destroy_layout,
  ping_layout, adapter_layout, lease_layout,
}
use luminal_vgd.Dispatch.Handlers.{
  on_handshake, on_ping, on_destroy, on_query_lease, on_set_render_adapter, on_query_pool,
  on_get_status,
}
use luminal_vgd.Dispatch.Updates.{bad_count, try_update, run_update, on_update_modes}
use luminal_vgd.Dispatch.Main.{on_create, on_set_pool, dispatch}
use luminal_vgd.Dispatch.Cases.{dispatch-arms, if-arms}
use luminal_vgd.Dispatch.Validity.{
  Returns, status-found, refuse_buffer-IsValid, finish-IsValid, plug_effect-found,
  apply_pool-IsValid,
}

module _ (generate : EdidParams → Bytes) (dev : DeviceState) (handle : HandleCtx) (n : ℕ)
    (v : IsValid dev.table) where
  answers :
      (d : DeviceState) (h : HandleCtx) (r : Reply) (es : List Effect)
      → IsValid d.table
      → Returns (some (finish d h n r es))
  answers d h r es w = (_, refl, finish-IsValid d h n r es w)

  refuses : Returns (some (refuse_buffer dev handle))
  refuses = (_, refl, refuse_buffer-IsValid dev handle v)

  on_handshake-Returns : (input : Bytes) → Returns (some (on_handshake dev handle input n))
  unfolding on_handshake
  on_handshake-Returns input = elim (Option-cases (read_req 4 handshake_layout input)) [
    | inl short ↦ rw (short, on_handshake) refuses
    | inr (req, e) ↦ rw (e, on_handshake) (answers dev _ _ [] v)
  ]

  on_create-Returns :
      (now : ℕ) (input : Bytes) → Returns (on_create generate dev handle now input n)
  unfolding on_create
  on_create-Returns now input = elim (Option-cases (read_create_request input)) [
    | inl short ↦ rw (short, on_create) refuses
    | inr (req, e) ↦
        let made = create dev.table now req dev.cfg.caps dev.adapters dev.preferred_adapter in
        let v' =
          create-IsValid dev.table now req dev.cfg.caps dev.adapters dev.preferred_adapter v in
        rw (e, on_create)
          (if-arms Returns (not handle.handshaken) _ _ (λ _. answers dev handle _ [] v)
            (elim (Result-cases made.0) [
              | inr (x, refused) ↦
                  rw refused (answers (record dev { table = made.1 }) handle _ [] v')
              | inl (m, good) ↦
                  let (plug, plugged) =
                    plug_effect-found generate made.1 req.session_id m (ring_slots dev) v' (
                      create-stored dev.table now req dev.cfg.caps dev.adapters
                        dev.preferred_adapter 0 m good) in
                  rw (good, plugged) (answers (record dev { table = made.1 }) handle _ _ v')
            ]))
  ]

  on_destroy-Returns : (input : Bytes) → Returns (some (on_destroy dev handle input n))
  unfolding on_destroy
  on_destroy-Returns input = elim (Option-cases (read_req 8 destroy_layout input)) [
    | inl short ↦ rw (short, on_destroy) refuses
    | inr (req, e) ↦
        rw (e, on_destroy)
          let gone = destroy dev.table req.session_id in
            let v' = destroy-IsValid dev.table req.session_id v in
            (if-arms (λ (o : Outcome). Returns (some o)) (not handle.handshaken) _ _
              (λ _. answers dev handle _ [] v)
              (elim (Result-cases gone.0) [
                | inl (m, here) ↦ rw here (answers (record dev { table = gone.1 }) handle _ _ v')
                | inr (x, missing) ↦
                    rw missing (answers (record dev { table = gone.1 }) handle _ [] v')
              ]))
  ]

  -- The test of the count keeps the slice in range.
  good_count :
      (req : UpdateModesRequest) → bad_count req ≡ false → req.mode_count ≤ length req.modes
  unfolding bad_count
  good_count req e = ground arith

  try_update-Returns :
      (token : ℕ) (req : UpdateModesRequest) (specs : List ModeSpec)
      → dev.table.update_seq + 1 < 2 ^ 64
      → Returns (try_update dev handle token req specs n)
  unfolding try_update
  try_update-Returns token req specs small =
      let (ans, t', e, v') =
        update_modes-IsValid dev.table req.session_id specs dev.cfg.caps token v small in
      rw (e, try_update) (answers (record dev { table = t' }) handle _ _ v')

  run_update-Returns :
      (token : ℕ) (req : UpdateModesRequest)
      → dev.table.update_seq + 1 < 2 ^ 64
      → Returns (run_update dev handle token req n)
  unfolding run_update
  run_update-Returns token req small =
      if-arms Returns (not handle.handshaken) _ _ (λ _. answers dev handle _ [] v)
        (elim (Bool-cases (bad_count req)) [
          | inl bad ↦ rw bad (answers dev handle _ [] v)
          | inr good ↦
              let (specs, e) = slice_to-some req.modes req.mode_count (good_count req good) in
              rw (good, e) (try_update-Returns token req specs small)
        ])

  on_update_modes-Returns :
      (token : ℕ) (input : Bytes)
      → dev.table.update_seq + 1 < 2 ^ 64
      → Returns (on_update_modes dev handle token input n)
  unfolding on_update_modes
  on_update_modes-Returns token input small =
      elim (Option-cases (read_update_modes_request input)) [
        | inl short ↦ rw (short, on_update_modes) refuses
        | inr (req, e) ↦
            rw (e, on_update_modes)
              (if-arms Returns (ltb n 40) _ _ (λ _. refuses) (run_update-Returns token req small))
      ]

  on_ping-Returns : (now : ℕ) (input : Bytes) → Returns (some (on_ping dev handle now input n))
  unfolding on_ping
  on_ping-Returns now input = elim (Option-cases (read_req 8 ping_layout input)) [
    | inl short ↦ rw (short, on_ping) refuses
    | inr (req, e) ↦
        rw (e, on_ping)
          (if-arms (λ (o : Outcome). Returns (some o)) (not handle.handshaken) _ _
            (λ _. answers dev handle _ [] v)
            (answers (record dev { table = (ping dev.table now req.session_id).1 }) handle _ []
              (ping-IsValid dev.table now req.session_id v)))
  ]

  on_query_lease-Returns :
      (now : ℕ) (input : Bytes) → Returns (some (on_query_lease dev handle now input n))
  unfolding on_query_lease
  on_query_lease-Returns now input = elim (Option-cases (read_req 8 lease_layout input)) [
    | inl short ↦ rw (short, on_query_lease) refuses
    | inr (req, e) ↦ rw (e, on_query_lease) (answers dev handle _ [] v)
  ]

  on_set_render_adapter-Returns :
      (input : Bytes) → Returns (some (on_set_render_adapter dev handle input n))
  unfolding on_set_render_adapter
  on_set_render_adapter-Returns input = elim (Option-cases (read_req 8 adapter_layout input)) [
    | inl short ↦ rw (short, on_set_render_adapter) refuses
    | inr (req, e) ↦
        rw (e, on_set_render_adapter)
          (if-arms (λ (o : Outcome). Returns (some o)) (not handle.handshaken) _ _
            (λ _. answers dev handle _ [] v)
            (answers (record dev { preferred_adapter = req.adapter_luid }) handle _ [] v))
  ]

  on_set_pool-Returns :
      (now : ℕ) (input : Bytes) → Returns (on_set_pool generate dev handle now input n)
  unfolding on_set_pool
  on_set_pool-Returns now input = elim (Option-cases (read_req 96 read_config input)) [
    | inl short ↦ rw (short, on_set_pool) refuses
    | inr (req, e) ↦
        let (r, applied, v') = apply_pool-IsValid generate dev now req v in
        rw (e, on_set_pool)
          (if-arms Returns (not handle.handshaken) _ _ (λ _. answers dev handle _ [] v)
            (elim (Result-cases (Permanent.validate req dev.cfg.caps (table_cap dev))) [
              | inr (x, refused) ↦ rw refused (answers dev handle _ [] v)
              | inl (u, fine) ↦ rw (fine, applied) (answers r.0 handle _ _ v')
            ]))
  ]

  on_get_status-Returns : (now : ℕ) → Returns (on_get_status dev handle now n)
  unfolding on_get_status
  on_get_status-Returns now =
      let (reply, e) = status-found dev.table now dev.cfg.driver_build dev.cfg.caps v in
      rw (e, on_get_status) (answers dev handle _ [] v)

  on_query_pool-Returns : Returns (some (on_query_pool dev handle n))
  unfolding on_query_pool
  on_query_pool-Returns = answers dev handle _ [] v

  pub dispatch-returns :
      (token now ioctl : ℕ) (input : Bytes)
      → dev.table.update_seq + 1 < 2 ^ 64
      → (o : Outcome) × (dispatch generate dev handle token now ioctl input n ≡ some o)
        × IsValid o.dev.table
  dispatch-returns token now ioctl input small =
      dispatch-arms generate dev handle token now ioctl input n Returns
        (λ _. on_handshake-Returns input) (on_create-Returns now input) (on_destroy-Returns input)
        (on_update_modes-Returns token input small) (on_ping-Returns now input)
        (on_query_lease-Returns now input) (on_set_render_adapter-Returns input)
        (on_set_pool-Returns now input) on_query_pool-Returns (on_get_status-Returns now)
        (_, refl, v)
