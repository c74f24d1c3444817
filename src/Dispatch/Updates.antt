-- ===== src/Dispatch/Updates.antt =====
-- The `IOCTL_UPDATE_MODES` arm of `dispatch` in crates/luminal-vgd-driver/src/dispatch.rs.
use luminal_vgd.Prelude.{
  ℕ, ◌%◌, ◌^◌, ◌||◌, Bool, not, Option, none, some, List, [], ◌∷◌, if◌then◌else◌, ltb, ◌==◌, ok,
  err, length, slice_to, bit_or,
}
use luminal_vgd.Prelude.Bytes.{Bytes}
use luminal_vgd.Prelude.Map.{lookup}
use luminal_vgd.Error.{code, Fallible}
use luminal_vgd.Proto.Err
use luminal_vgd.Proto.UpdateStatus
use luminal_vgd.Proto.{ModeSpec, max_modes_per_monitor}
use luminal_vgd.Proto.Messages.{
  UpdateModesRequest, UpdateModesReply, new_update_reply, set_detail, set_rejected, set_blocked,
}
use luminal_vgd.Session.State.{SessionTable, ModeUpdate}
use luminal_vgd.Session.Update.{update_modes}
use luminal_vgd.Dispatch.State.{
  DeviceState, HandleCtx, Effect, update_targets, Outcome, refuse_buffer, finish, update_reply,
}
use luminal_vgd.Dispatch.Wire.{read_update_modes_request}

-- `reply.mode_count` before the request is tried
unfoldable pub published_count : SessionTable → ℕ → ℕ
published_count t session_id = elim (lookup session_id t.monitors) [
  | none ↦ 0
  | some m ↦ length m.target_modes % 2 ^ 32
]

unfoldable pub status_flags : ModeUpdate → ℕ
status_flags u =
    bit_or (if ltb 0 u.rejected then UpdateStatus.partial else 0)
      (if u.pending then UpdateStatus.pending else 0)

abbrev pub low32 : Option ℕ → Option ℕ
low32 none = none
low32 (some i) = some (i % 2 ^ 32)

-- The reply with the counts and flags of an answered update.
unfoldable pub detailed : UpdateModesReply → ℕ → ModeUpdate → UpdateModesReply
detailed reply mode_count u = set_detail (u.accepted % 2 ^ 32) mode_count (status_flags u) (
    set_rejected (u.rejected % 2 ^ 32) (low32 u.first_rejected)
      (record reply { mode_count = length u.targets % 2 ^ 32 }))

-- The chain of tests on an answered update: the reply, and the effect of a queued one.
unfoldable pub conclude_update : ℕ → ModeUpdate → UpdateModesReply → UpdateModesReply × List Effect
conclude_update session_id u reply = elim u.blocked [
  | some idx ↦ (set_blocked idx (record reply { result = Err.mode_committed }), [])
  | none ↦ if u.refused then (record reply { result = Err.bad_mode }, []) else elim u.queued [
    | none ↦ (reply, [])
    | some seq ↦ (reply, update_targets session_id seq u.targets ∷ [])
  ]
]

unfoldable pub answer_update :
    UpdateModesRequest → UpdateModesReply → Fallible ModeUpdate → UpdateModesReply × List Effect
answer_update req reply (err e) = (record reply { result = code e }, [])
answer_update req reply (ok u) = conclude_update req.session_id u (detailed reply req.mode_count u)

-- The reply before the request is tried.
unfoldable pub blank_update_reply : DeviceState → UpdateModesRequest → UpdateModesReply
blank_update_reply dev req =
    set_detail 0 req.mode_count 0 (record (new_update_reply req.session_id) {
      mode_count = published_count dev.table req.session_id;
    })

-- `mode_count` is out of the range of the request.
unfoldable pub bad_count : UpdateModesRequest → Bool
bad_count req =
    req.mode_count == 0
    || ltb max_modes_per_monitor req.mode_count
    || ltb (length req.modes) req.mode_count

-- The last arm, with the slice of the entries that the request counts.
unfoldable pub try_update :
    DeviceState → HandleCtx → ℕ → UpdateModesRequest → List ModeSpec → ℕ → Option Outcome
try_update dev handle commit_token req specs out_len =
    elim (update_modes dev.table req.session_id specs dev.cfg.caps commit_token) [
      | none ↦ none
      | some r ↦
          let (answer, effects) = answer_update req (blank_update_reply dev req) r.0 in
          some (finish (record dev { table = r.1 }) handle out_len (update_reply answer) effects)
    ]

-- `commit_token` is what `modepush::committed_token()` reads.
unfoldable pub run_update : DeviceState → HandleCtx → ℕ → UpdateModesRequest → ℕ → Option Outcome
run_update dev handle commit_token req out_len =
    let reply = blank_update_reply dev req in
    if not handle.handshaken
    then some
        (finish dev handle out_len (update_reply (record reply { result = Err.not_handshaken })) [])
    else if bad_count req
    then some (finish dev handle out_len (update_reply (record reply { result = Err.bad_mode })) [])
    else elim (slice_to req.modes req.mode_count) [
      | none ↦ none
      | some specs ↦ try_update dev handle commit_token req specs out_len
    ]

unfoldable pub on_update_modes : DeviceState → HandleCtx → ℕ → Bytes → ℕ → Option Outcome
on_update_modes dev handle commit_token input out_len = elim (read_update_modes_request input) [
  | none ↦ some (refuse_buffer dev handle)
  | some req ↦
      if ltb out_len 40
      then some (refuse_buffer dev handle)
      else run_update dev handle commit_token req out_len
]
