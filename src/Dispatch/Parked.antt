-- ===== src/Dispatch/Parked.antt =====
-- The effect of `IOCTL_UPDATE_MODES` in crates/luminal-vgd-driver/src/dispatch.rs, against the
-- update that the session table has parked.
use luminal_vgd.Prelude.{
  ℕ, ◌%◌, ◌^◌, Bool, true, false, not, ltb, Option, none, some, List, [], ◌∷◌, ok, err, length,
  slice_to, ◌≡◌, refl, sym, ap, ◌∙◌, subst, inl, inr, In, some-injective, Bool-cases, Option-cases,
  Result-cases,
}
use luminal_vgd.Prelude.Bytes.{Bytes}
use luminal_vgd.Prelude.Map.{lookup, insert}
use luminal_vgd.Error.{Fallible}
use luminal_vgd.Proto.{ModeSpec}
use luminal_vgd.Proto.{ModeSpec, as_raw}
use luminal_vgd.Proto.Messages.{UpdateModesRequest, UpdateModesReply}
use luminal_vgd.Modes.{Mode, TargetSelection, validate_list, select_targets}
use luminal_vgd.Modes
use luminal_vgd.Session.State.{Monitor, SessionTable, ModeUpdate, target_base}
use luminal_vgd.Session.Update.{
  block_for, modes_eq, decide, queue, unchanged, expire_block, update_monitor, update_modes,
  hdr_raw,
}
use luminal_vgd.Session.Invariant.{lookup_stored}
use luminal_vgd.Dispatch.State.{
  DeviceState, HandleCtx, Effect, update_targets, Outcome, bad_buffer, refuse_buffer,
  bad_buffer_result, finish, size_of, update_reply,
}
use luminal_vgd.Dispatch.Wire.{read_update_modes_request}
use luminal_vgd.Dispatch.Updates.{
  bad_count, try_update, run_update, on_update_modes, answer_update, conclude_update,
  blank_update_reply,
}
use luminal_vgd.Dispatch.Cases.{if-arms}

-- Session `k` waits for the report of update `seq`, which is the last one issued.
pub record Parks (t : SessionTable) (k seq : ℕ) (targets : List Mode) : Type 0 where
  pub monitor : Monitor
  pub found : lookup k t.monitors ≡ some monitor
  pub pending : monitor.pending_targets ≡ some (record { seq = seq; targets = targets })
  pub last : t.update_seq ≡ seq

-- What a queued answer has done to the table.
abbrev IfQueued : ℕ → ModeUpdate × SessionTable → Type 0
IfQueued k r = (seq : ℕ) → r.0.queued ≡ some seq → Parks r.1 k seq r.0.targets

decide-queued :
    (t : SessionTable) (k : ℕ) (m : Monitor) (s : TargetSelection) → IfQueued k (decide t k m s)
unfolding decide queue unchanged
decide-queued t k m s = elim (Bool-cases (Modes.is_empty s)) [
  | inl nothing ↦ rw (nothing, decide) (λ seq q. cc)
  | inr something ↦ elim (Option-cases (block_for m s.targets)) [
    | inr (idx, b) ↦ rw (something, b, decide) (λ seq q. cc)
    | inl b ↦ elim (Bool-cases (modes_eq s.targets (target_base m))) [
      | inl same ↦ rw (something, b, same, decide) (λ seq q. cc)
      | inr new ↦
          rw (something, b, new, decide)
            (λ seq q. record {
              monitor = _;
              found = lookup_stored k _ t.monitors;
              pending = ap (λ n. some (record { seq = n; targets = s.targets })) (some-injective q);
              last = some-injective q;
            })
    ]
  ]
]

abbrev IfAnswered : ℕ → Option (Fallible ModeUpdate × SessionTable) → Type 0
IfAnswered k x = (u : ModeUpdate) (t' : SessionTable) → x ≡ some (ok u, t') → IfQueued k (u, t')

abbrev answered :
    ModeUpdate × SessionTable
    → Option (Fallible ModeUpdate × SessionTable)
    → ModeUpdate × SessionTable
answered d none = d
answered d (some (err e, t)) = d
answered d (some (ok u, t)) = (u, t)

abbrev is_refusal : Option (Fallible ModeUpdate × SessionTable) → Bool
is_refusal (some (err e, t)) = true
is_refusal _ = false

update_monitor-queued :
    (t : SessionTable) (k : ℕ) (m : Monitor) (specs : List ModeSpec) (caps : ℕ) (modes : List Mode)
    → IfAnswered k (update_monitor t k m specs caps modes)
unfolding update_monitor
update_monitor-queued t k m specs caps [] u t' q = cc
update_monitor-queued t k m specs caps (pref ∷ rest) u t' q =
    elim (Result-cases (
      validate_list specs (length specs % 2 ^ 32) (as_raw pref.bit_depth) (hdr_raw pref.hdr)
        caps)) [
          | inr (x, f) ↦
              let never : true ≡ false = ap is_refusal (rw (f, update_monitor) at q) in cc
          | inl (requested, f) ↦
              let d = decide t k m (select_targets m.modes requested) in
              let same : d ≡ (u, t') = ap (answered d) (rw (f, update_monitor) at q) in
              subst (IfQueued k) same (decide-queued t k m (select_targets m.modes requested))
        ]

-- An update that `update_modes` answers as queued is the one that the table has parked.
update_modes-queued :
    (t : SessionTable) (k : ℕ) (specs : List ModeSpec) (caps token : ℕ)
    → IfAnswered k (update_modes t k specs caps token)
unfolding update_modes
update_modes-queued t k specs caps token = elim (Option-cases (lookup k t.monitors)) [
  | inl e ↦ rw (e, update_modes) (λ u t' q. let never : true ≡ false = ap is_refusal q in cc)
  | inr (m, e) ↦
      rw (e, update_modes)
        (update_monitor-queued (record t { monitors = insert k (expire_block token m) t.monitors })
          k (expire_block token m) specs caps (expire_block token m).modes)
]

-- Each effect of an answer pushes what the answer queued.
answer_update-pushes :
    (req : UpdateModesRequest) (reply : UpdateModesReply) (a : Fallible ModeUpdate) (k seq : ℕ)
    (targets : List Mode)
    → In (update_targets k seq targets) (answer_update req reply a).1
    → (u : ModeUpdate) × (a ≡ ok u)
      × (u.queued ≡ some seq)
      × (k ≡ req.session_id)
      × (targets ≡ u.targets)
unfolding answer_update conclude_update
answer_update-pushes req reply (err e) k seq targets i = absurd i
answer_update-pushes req reply (ok u) k seq targets i = elim (Option-cases u.blocked) [
  | inr (idx, e) ↦ absurd (rw (e, answer_update, conclude_update) at i)
  | inl e ↦ elim (Bool-cases u.refused) [
    | inl f ↦ absurd (rw (e, f, answer_update, conclude_update) at i)
    | inr f ↦ elim (Option-cases u.queued) [
      | inl g ↦ absurd (rw (e, f, g, answer_update, conclude_update) at i)
      | inr (seq', g) ↦ elim (rw (e, f, g, answer_update, conclude_update) at i) [
        | inr none_left ↦ absurd none_left
        | inl q ↦ (u, refl, g ∙ ap some (sym (ap seq_of q)), ap session_of q, ap targets_of q)
      ]
    ]
  ]
]
  where
    seq_of : Effect → ℕ
    seq_of (update_targets a b c) = b
    seq_of _ = 0

    session_of : Effect → ℕ
    session_of (update_targets a b c) = a
    session_of _ = 0

    targets_of : Effect → List Mode
    targets_of (update_targets a b c) = c
    targets_of _ = []

-- What a request to update modes leaves.
record IsWhole (dev : DeviceState) (o : Outcome) : Type 0 where
  refused : o.result.status ≡ bad_buffer → o.dev ≡ dev
  pushed :
      (k seq : ℕ) (targets : List Mode)
      → In (update_targets k seq targets) o.result.effects
      → Parks o.dev.table k seq targets

abbrev IfAny : DeviceState → Option Outcome → Type 0
IfAny dev x = (o : Outcome) → x ≡ some o → IsWhole dev o

IfAny-some : (dev : DeviceState) (o : Outcome) → IsWhole dev o → IfAny dev (some o)
IfAny-some dev o i o' q = subst (IsWhole dev) (some-injective q) i

refuse_buffer-IsWhole :
    (dev : DeviceState) (handle : HandleCtx) → IsWhole dev (refuse_buffer dev handle)
unfolding refuse_buffer bad_buffer_result
refuse_buffer-IsWhole dev handle = record {
  refused = λ q. refl;
  pushed = λ k seq targets i. absurd i;
}

-- A reply of 40 bytes into a buffer that takes them.
finish-IsWhole :
    (dev d : DeviceState) (handle : HandleCtx) (n : ℕ) (r : UpdateModesReply) (es : List Effect)
    → ltb n 40 ≡ false
    → ((k seq : ℕ) (targets : List Mode)
        → In (update_targets k seq targets) es
        → Parks d.table k seq targets)
    → IsWhole dev (finish d handle n (update_reply r) es)
unfolding finish size_of
finish-IsWhole dev d handle n r es room parked =
    rw (room, finish, size_of) (record { refused = λ q. cc; pushed = parked })

try_update-IsWhole :
    (dev : DeviceState) (handle : HandleCtx) (token : ℕ) (req : UpdateModesRequest)
    (specs : List ModeSpec) (n : ℕ)
    → ltb n 40 ≡ false
    → IfAny dev (try_update dev handle token req specs n)
unfolding try_update
try_update-IsWhole dev handle token req specs n room =
    elim (Option-cases (update_modes dev.table req.session_id specs dev.cfg.caps token)) [
      | inl panics ↦ rw (panics, try_update) (λ o q. cc)
      | inr (r, e) ↦
          rw (e, try_update)
            (IfAny-some dev _ (
              finish-IsWhole dev (record dev { table = r.1 }) handle n _ _ room
                (λ k seq targets i.
                  let (u, ok_u, queued, at_k, same) =
                    answer_update-pushes req (blank_update_reply dev req) r.0 k seq targets i in
                  let p =
                    update_modes-queued dev.table req.session_id specs dev.cfg.caps token u r.1
                      (e ∙ ap (λ a. some (a, r.1)) ok_u) seq queued in
                  subst (λ j. Parks r.1 j seq targets) (sym at_k)
                    (subst (λ ms. Parks r.1 req.session_id seq ms) (sym same) p))))
    ]

run_update-IsWhole :
    (dev : DeviceState) (handle : HandleCtx) (token : ℕ) (req : UpdateModesRequest) (n : ℕ)
    → ltb n 40 ≡ false
    → IfAny dev (run_update dev handle token req n)
unfolding run_update
run_update-IsWhole dev handle token req n room =
    let still = λ (r : UpdateModesReply).
      IfAny-some dev _ (finish-IsWhole dev dev handle n r [] room (λ k seq targets i. absurd i)) in
    if-arms (IfAny dev) (not handle.handshaken) _ _ (λ _. still _)
      (if-arms (IfAny dev) (bad_count req) _ _ (λ _. still _)
        (elim (Option-cases (slice_to req.modes req.mode_count)) [
          | inl panics ↦ rw panics (λ o q. cc)
          | inr (specs, e) ↦ rw e (try_update-IsWhole dev handle token req specs n room)
        ]))

on_update_modes-IsWhole :
    (dev : DeviceState) (handle : HandleCtx) (token : ℕ) (input : Bytes) (n : ℕ) (o : Outcome)
    → on_update_modes dev handle token input n ≡ some o
    → IsWhole dev o
unfolding on_update_modes
on_update_modes-IsWhole dev handle token input n =
    elim (Option-cases (read_update_modes_request input)) [
      | inl short ↦
          rw (short, on_update_modes) (IfAny-some dev _ (refuse_buffer-IsWhole dev handle))
      | inr (req, e) ↦ elim (Bool-cases (ltb n 40)) [
        | inl small ↦
            rw (e, small, on_update_modes) (IfAny-some dev _ (refuse_buffer-IsWhole dev handle))
        | inr room ↦ rw (e, room, on_update_modes) (run_update-IsWhole dev handle token req n room)
      ]
    ]

-- Whenever `IOCTL_UPDATE_MODES` asks the shell to push a list, the session table has parked exactly
-- that list for that session, under the sequence number of the effect, which is the last one
-- issued.
pub on_update_modes-pushed :
    (dev : DeviceState) (handle : HandleCtx) (token : ℕ) (input : Bytes) (n : ℕ) (o : Outcome)
    (k seq : ℕ) (targets : List Mode)
    → on_update_modes dev handle token input n ≡ some o
    → In (update_targets k seq targets) o.result.effects
    → Parks o.dev.table k seq targets
on_update_modes-pushed dev handle token input n o k seq targets e =
    (on_update_modes-IsWhole dev handle token input n o e).pushed k seq targets

-- `IOCTL_UPDATE_MODES` that is answered with a refused buffer, for its input or its output, has
-- changed nothing of the device.
pub on_update_modes-refused :
    (dev : DeviceState) (handle : HandleCtx) (token : ℕ) (input : Bytes) (n : ℕ) (o : Outcome)
    → on_update_modes dev handle token input n ≡ some o
    → o.result.status ≡ bad_buffer
    → o.dev ≡ dev
on_update_modes-refused dev handle token input n o e =
    (on_update_modes-IsWhole dev handle token input n o e).refused
