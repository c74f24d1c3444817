-- ===== src/Dispatch/Handlers.antt =====
-- `dispatch` and `watchdog_tick` of crates/luminal-vgd-driver/src/dispatch.rs. A handler takes the
-- device, the handle, the time, the input bytes and the size of the output buffer; none is a panic.
use luminal_vgd.Prelude.{ℕ, not, Option, none, some, [], ◌∷◌, if◌then◌else◌, ok, err, replicate}
use luminal_vgd.Prelude.Bytes.{Bytes}
use luminal_vgd.Prelude.Int.{ℤ}
use luminal_vgd.Error.{code, Fallible, not_handshaken}
use luminal_vgd.Proto.Err
use luminal_vgd.Proto.{versions_compatible, CreateMonitorRequest}
use luminal_vgd.Proto.Messages.{CreateMonitorReply, QueryLeaseRequest, QueryLeaseReply}
use luminal_vgd.Session.Removal.{destroy}
use luminal_vgd.Session.Lease.{ping, query_lease}
use luminal_vgd.Session.Status
use luminal_vgd.Dispatch.State.{
  DeviceState, HandleCtx, unplug_monitor, Outcome, refuse_buffer, finish, handshake_reply,
  result_code, lease_reply, pool_reply, status_reply, persist_effect,
}
use luminal_vgd.Dispatch.Wire.{
  read_req, handshake_layout, destroy_layout, ping_layout, adapter_layout, lease_layout,
}

unfoldable pub on_handshake : DeviceState → HandleCtx → Bytes → ℕ → Outcome
on_handshake dev handle input out_len = elim (read_req 4 handshake_layout input) [
  | none ↦ refuse_buffer dev handle
  | some req ↦
      let reply = Status.handshake_reply dev.table dev.cfg.caps dev.cfg.driver_build in
      finish dev
        (record handle {
          handshaken =
              versions_compatible req.host_proto_major req.host_proto_minor reply.driver_proto_major
                reply.driver_proto_minor;
        })
        out_len (handshake_reply reply) []
]

-- The reply of a create before it is tried.
unfoldable pub blank_create_reply : CreateMonitorRequest → ℤ → CreateMonitorReply
blank_create_reply req result = record {
  session_id = req.session_id;
  display_id = 0;
  result = result;
  ring_slots = 0;
  connector_index = 0;
  reserved = 0;
  ring_section_name = replicate 64 0;
}

abbrev pub unit_code : Fallible (Unit {0}) → ℤ
unit_code (ok u) = Err.ok
unit_code (err e) = code e

unfoldable pub on_ping : DeviceState → HandleCtx → ℕ → Bytes → ℕ → Outcome
on_ping dev handle now_ms input out_len = elim (read_req 8 ping_layout input) [
  | none ↦ refuse_buffer dev handle
  | some req ↦
      if not handle.handshaken
      then finish dev handle out_len (result_code Err.not_handshaken) []
      else let fed = ping dev.table now_ms req.session_id in
        finish (record dev { table = fed.1 }) handle out_len (result_code (unit_code fed.0)) []
]

unfoldable pub on_destroy : DeviceState → HandleCtx → Bytes → ℕ → Outcome
on_destroy dev handle input out_len = elim (read_req 8 destroy_layout input) [
  | none ↦ refuse_buffer dev handle
  | some req ↦
      if not handle.handshaken
      then finish dev handle out_len (result_code Err.not_handshaken) []
      else let gone = destroy dev.table req.session_id in
        let dev' : DeviceState = record dev { table = gone.1 } in
        elim gone.0 [
          | ok m ↦
              finish dev' handle out_len (result_code Err.ok)
                (unplug_monitor req.session_id ∷ persist_effect dev' ∷ [])
          | err e ↦ finish dev' handle out_len (result_code (code e)) []
        ]
]

unfoldable pub lease_answer : QueryLeaseRequest → Fallible (ℕ × ℕ × ℕ) → QueryLeaseReply
lease_answer req (ok (display_id, connector, remaining)) = record {
  session_id = req.session_id;
  display_id = display_id;
  remaining_ms = remaining;
  connector_index = connector;
  result = Err.ok;
  reserved = 0;
}
lease_answer req (err e) = record {
  session_id = req.session_id;
  display_id = 0;
  remaining_ms = 0;
  connector_index = 0;
  result = code e;
  reserved = 0;
}

unfoldable pub on_query_lease : DeviceState → HandleCtx → ℕ → Bytes → ℕ → Outcome
on_query_lease dev handle now_ms input out_len = elim (read_req 8 lease_layout input) [
  | none ↦ refuse_buffer dev handle
  | some req ↦
      let answer =
        if not handle.handshaken
        then err not_handshaken
        else query_lease dev.table now_ms req.session_id in
      finish dev handle out_len (lease_reply (lease_answer req answer)) []
]

unfoldable pub on_set_render_adapter : DeviceState → HandleCtx → Bytes → ℕ → Outcome
on_set_render_adapter dev handle input out_len = elim (read_req 8 adapter_layout input) [
  | none ↦ refuse_buffer dev handle
  | some req ↦
      if not handle.handshaken
      then finish dev handle out_len (result_code Err.not_handshaken) []
      else finish (record dev { preferred_adapter = req.adapter_luid }) handle out_len
          (result_code Err.ok) []
]

unfoldable pub on_query_pool : DeviceState → HandleCtx → ℕ → Outcome
on_query_pool dev handle out_len =
    finish dev handle out_len
      (pool_reply (record { config = dev.pool; result = Err.ok; reserved = 0 })) []

unfoldable pub on_get_status : DeviceState → HandleCtx → ℕ → ℕ → Option Outcome
on_get_status dev handle now_ms out_len =
    elim (Status.status dev.table now_ms dev.cfg.driver_build dev.cfg.caps) [
      | none ↦ none
      | some reply ↦ some (finish dev handle out_len (status_reply reply) [])
    ]
