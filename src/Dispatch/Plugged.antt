-- ===== src/Dispatch/Plugged.antt =====
-- The effects that `dispatch` and `watchdog_tick` of crates/luminal-vgd-driver/src/dispatch.rs ask
-- of the shell, against the sessions of the table.
use luminal_vgd.Prelude.{
  ℕ, Bool, not, ltb, some, none, [], ◌∷◌, slice_to, List, ◌≡◌, ◌≢◌, refl, sym, ◌∙◌, inl, inr,
  Option-cases, Result-cases,
}
use luminal_vgd.Prelude.Bytes.{Bytes}
use luminal_vgd.Proto.{ModeSpec}
use luminal_vgd.Proto.Messages.{UpdateModesRequest}
use luminal_vgd.Persist.{read_config}
use luminal_vgd.Edid.{EdidParams}
use luminal_vgd.Permanent
use luminal_vgd.Session.Create.{create}
use luminal_vgd.Session.Update.{update_modes}
use luminal_vgd.Session.Removal.{destroy}
use luminal_vgd.Session.Lease.{ping}
use luminal_vgd.Session.Status
use luminal_vgd.Session.Live.{
  is_live-create, is_live-create_refused, is_live-destroy, is_live-destroy_refused, is_live-ping,
  is_live-update_modes,
}
use luminal_vgd.Dispatch.State.{
  DeviceState, HandleCtx, unplug_monitor, Outcome, Reply, bad_buffer, unknown_code, refuse_buffer,
  bad_buffer_result, finish, plug_effect, ring_slots, table_cap,
}
use luminal_vgd.Dispatch.Pool.{apply_pool}
use luminal_vgd.Dispatch.Wire.{
  read_req, read_create_request, read_update_modes_request, handshake_layout, destroy_layout,
  ping_layout, adapter_layout, lease_layout,
}
use luminal_vgd.Dispatch.Handlers.{
  on_handshake, on_ping, on_destroy, on_query_lease, on_set_render_adapter, on_query_pool,
  on_get_status,
}
use luminal_vgd.Dispatch.Updates.{
  bad_count, try_update, run_update, on_update_modes, blank_update_reply,
}
use luminal_vgd.Dispatch.Main.{on_create, on_set_pool, dispatch}
use luminal_vgd.Dispatch.Cases.{dispatch-arms, if-arms}
use luminal_vgd.Dispatch.Mirror.{after, after_all, Mirrors, plugged-Mirrors, apply_pool-Mirrors}
use luminal_vgd.Dispatch.Kept.{
  Kept, IfAny, IfAny-some, finish-Kept, after_all-snapshot, after_all-answer,
}

module _ (generate : EdidParams → Bytes) (os : ℕ → Bool) (dev : DeviceState) (handle : HandleCtx)
    (n : ℕ) (h : Mirrors os dev.table) where
  -- A reply without effects over a table of the same sessions.
  quiet :
      (d : DeviceState) (hd : HandleCtx) (r : Reply)
      → Mirrors os d.table
      → Kept os (finish d hd n r [])
  unfolding after_all
  quiet d hd r w = finish-Kept os d hd n r [] w

  refuses : Kept os (refuse_buffer dev handle)
  unfolding refuse_buffer bad_buffer_result
  refuses served = absurd (served refl)

  on_handshake-Kept : (input : Bytes) → Kept os (on_handshake dev handle input n)
  unfolding on_handshake
  on_handshake-Kept input = elim (Option-cases (read_req 4 handshake_layout input)) [
    | inl short ↦ rw (short, on_handshake) refuses
    | inr (req, e) ↦ rw (e, on_handshake) (quiet dev _ _ h)
  ]

  on_create-Kept : (now : ℕ) (input : Bytes) → IfAny os (on_create generate dev handle now input n)
  unfolding on_create Mirrors after_all
  on_create-Kept now input = elim (Option-cases (read_create_request input)) [
    | inl short ↦ rw (short, on_create) (IfAny-some os _ refuses)
    | inr (req, e) ↦
        let made = create dev.table now req dev.cfg.caps dev.adapters dev.preferred_adapter in
        let dev' : DeviceState = record dev { table = made.1 } in
        rw (e, on_create)
          (if-arms (IfAny os) (not handle.handshaken) _ _
            (λ _. IfAny-some os _ (quiet dev handle _ h))
            (elim (Result-cases made.0) [
              | inr (x, refused) ↦ rw refused (
                  IfAny-some os _ (
                    quiet dev' handle _ (λ k.
                      h k
                      ∙ sym (
                          is_live-create_refused dev.table now req dev.cfg.caps dev.adapters
                            dev.preferred_adapter k x refused))))
              | inl (m, good) ↦ elim (Option-cases (plug_effect generate m (ring_slots dev))) [
                | inl panics ↦ rw (good, panics) (λ o q. cc)
                | inr (p, plugged) ↦
                    rw (good, plugged)
                      (IfAny-some os _ (
                        finish-Kept os dev' handle n _ _ (λ k.
                          after_all-snapshot os dev' (p ∷ []) k
                          ∙ plugged-Mirrors generate os dev.table made.1 m (ring_slots dev) p
                              req.session_id h plugged
                              (λ j.
                                is_live-create dev.table now req dev.cfg.caps dev.adapters
                                  dev.preferred_adapter j m good)
                              k)))
              ]
            ]))
  ]

  on_destroy-Kept : (input : Bytes) → Kept os (on_destroy dev handle input n)
  unfolding on_destroy Mirrors after_all after
  on_destroy-Kept input = elim (Option-cases (read_req 8 destroy_layout input)) [
    | inl short ↦ rw (short, on_destroy) refuses
    | inr (req, e) ↦
        let gone = destroy dev.table req.session_id in
        let dev' : DeviceState = record dev { table = gone.1 } in
        rw (e, on_destroy)
          (if-arms (Kept os) (not handle.handshaken) _ _ (λ _. quiet dev handle _ h)
            (elim (Result-cases gone.0) [
              | inl (m, here) ↦ rw here (
                  finish-Kept os dev' handle n _ _ (λ k.
                    after_all-snapshot os dev' (unplug_monitor req.session_id ∷ []) k
                    ∙ rw (h k, is_live-destroy dev.table req.session_id k m here) refl))
              | inr (x, missing) ↦ rw missing (
                  quiet dev' handle _
                    (λ k. rw (is_live-destroy_refused dev.table req.session_id x missing) (h k)))
            ]))
  ]

  try_update-Kept :
      (token : ℕ) (req : UpdateModesRequest) (specs : List ModeSpec)
      → IfAny os (try_update dev handle token req specs n)
  unfolding try_update Mirrors
  try_update-Kept token req specs =
      elim (Option-cases (update_modes dev.table req.session_id specs dev.cfg.caps token)) [
        | inl panics ↦ rw (panics, try_update) (λ o q. cc)
        | inr (r, e) ↦
            rw (e, try_update)
              (IfAny-some os _ (
                finish-Kept os (record dev { table = r.1 }) handle n _ _
                  (λ k.
                    after_all-answer os req (blank_update_reply dev req) r.0 k
                    ∙ h k
                    ∙ sym (
                        is_live-update_modes dev.table req.session_id specs dev.cfg.caps token r e
                          k))))
      ]

  run_update-Kept :
      (token : ℕ) (req : UpdateModesRequest) → IfAny os (run_update dev handle token req n)
  unfolding run_update Mirrors
  run_update-Kept token req =
      if-arms (IfAny os) (not handle.handshaken) _ _ (λ _. IfAny-some os _ (quiet dev handle _ h))
        (if-arms (IfAny os) (bad_count req) _ _ (λ _. IfAny-some os _ (quiet dev handle _ h))
          (elim (Option-cases (slice_to req.modes req.mode_count)) [
            | inl panics ↦ rw panics (λ o q. cc)
            | inr (specs, e) ↦ rw e (try_update-Kept token req specs)
          ]))

  on_update_modes-Kept :
      (token : ℕ) (input : Bytes) → IfAny os (on_update_modes dev handle token input n)
  unfolding on_update_modes
  on_update_modes-Kept token input = elim (Option-cases (read_update_modes_request input)) [
    | inl short ↦ rw (short, on_update_modes) (IfAny-some os _ refuses)
    | inr (req, e) ↦
        rw (e, on_update_modes)
          (if-arms (IfAny os) (ltb n 40) _ _ (λ _. IfAny-some os _ refuses)
            (run_update-Kept token req))
  ]

  on_ping-Kept : (now : ℕ) (input : Bytes) → Kept os (on_ping dev handle now input n)
  unfolding on_ping Mirrors
  on_ping-Kept now input = elim (Option-cases (read_req 8 ping_layout input)) [
    | inl short ↦ rw (short, on_ping) refuses
    | inr (req, e) ↦
        rw (e, on_ping)
          (if-arms (Kept os) (not handle.handshaken) _ _ (λ _. quiet dev handle _ h)
            (quiet (record dev { table = (ping dev.table now req.session_id).1 }) handle _
              (λ k. h k ∙ sym (is_live-ping dev.table now req.session_id k))))
  ]

  on_query_lease-Kept : (now : ℕ) (input : Bytes) → Kept os (on_query_lease dev handle now input n)
  unfolding on_query_lease
  on_query_lease-Kept now input = elim (Option-cases (read_req 8 lease_layout input)) [
    | inl short ↦ rw (short, on_query_lease) refuses
    | inr (req, e) ↦ rw (e, on_query_lease) (quiet dev handle _ h)
  ]

  on_set_render_adapter-Kept : (input : Bytes) → Kept os (on_set_render_adapter dev handle input n)
  unfolding on_set_render_adapter
  on_set_render_adapter-Kept input = elim (Option-cases (read_req 8 adapter_layout input)) [
    | inl short ↦ rw (short, on_set_render_adapter) refuses
    | inr (req, e) ↦
        rw (e, on_set_render_adapter)
          (if-arms (Kept os) (not handle.handshaken) _ _ (λ _. quiet dev handle _ h)
            (quiet (record dev { preferred_adapter = req.adapter_luid }) handle _ h))
  ]

  on_set_pool-Kept :
      (now : ℕ) (input : Bytes) → IfAny os (on_set_pool generate dev handle now input n)
  unfolding on_set_pool Mirrors
  on_set_pool-Kept now input = elim (Option-cases (read_req 96 read_config input)) [
    | inl short ↦ rw (short, on_set_pool) (IfAny-some os _ refuses)
    | inr (req, e) ↦
        rw (e, on_set_pool)
          (if-arms (IfAny os) (not handle.handshaken) _ _
            (λ _. IfAny-some os _ (quiet dev handle _ h))
            (elim (Result-cases (Permanent.validate req dev.cfg.caps (table_cap dev))) [
              | inr (x, refused) ↦ rw refused (IfAny-some os _ (quiet dev handle _ h))
              | inl (u, fine) ↦ elim (Option-cases (apply_pool generate dev now req)) [
                | inl panics ↦ rw (fine, panics) (λ o q. cc)
                | inr (r, applied) ↦
                    rw (fine, applied)
                      (IfAny-some os _ (
                        finish-Kept os r.0 handle n _ _ (λ k.
                          after_all-snapshot os r.0 r.1 k
                          ∙ apply_pool-Mirrors generate os dev now req r h applied k)))
              ]
            ]))
  ]

  on_query_pool-Kept : Kept os (on_query_pool dev handle n)
  unfolding on_query_pool
  on_query_pool-Kept = quiet dev handle _ h

  on_get_status-Kept : (now : ℕ) → IfAny os (on_get_status dev handle now n)
  unfolding on_get_status
  on_get_status-Kept now =
      elim (Option-cases (Status.status dev.table now dev.cfg.driver_build dev.cfg.caps)) [
        | inl panics ↦ rw (panics, on_get_status) (λ o q. cc)
        | inr (reply, e) ↦ rw (e, on_get_status) (IfAny-some os _ (quiet dev handle _ h))
      ]

  unknown-Kept : Kept os (record {
    dev = dev;
    handle = handle;
    result = record { status = unknown_code; bytes_written = 0; effects = [] };
    reply = none;
  })
  unfolding after_all
  unknown-Kept served = h

  -- Where exactly the live sessions are plugged, they still are once the shell has applied the
  -- effects of a request, of any code and with any input bytes, that is not answered with a refused
  -- buffer.
  pub dispatch-Mirrors :
      (token now ioctl : ℕ) (input : Bytes) (o : Outcome)
      → dispatch generate dev handle token now ioctl input n ≡ some o
      → o.result.status ≢ bad_buffer
      → Mirrors (after_all os o.result.effects) o.dev.table
  dispatch-Mirrors token now ioctl input =
      dispatch-arms generate dev handle token now ioctl input n (IfAny os)
        (λ _. IfAny-some os _ (on_handshake-Kept input)) (on_create-Kept now input)
        (IfAny-some os _ (on_destroy-Kept input)) (on_update_modes-Kept token input)
        (IfAny-some os _ (on_ping-Kept now input)) (IfAny-some os _ (on_query_lease-Kept now input))
        (IfAny-some os _ (on_set_render_adapter-Kept input)) (on_set_pool-Kept now input)
        (IfAny-some os _ on_query_pool-Kept) (on_get_status-Kept now) (IfAny-some os _ unknown-Kept)
