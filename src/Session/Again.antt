-- ===== src/Session/Again.antt =====
-- A request, the report of its push, and the same request again, in `update_modes` and
-- `settle_modes` of crates/luminal-vgd-core/src/session.rs.
use luminal_vgd.Prelude.{
  ℕ, ◌+◌, ◌%◌, ◌^◌, ◌≤◌, ◌<◌, ◌≡◌, refl, ap, ◌∙◌, ◌≢◌, true, false, none, some, arith, ==_ne,
}
use luminal_vgd.Prelude.Map.{lookup, insert}
use luminal_vgd.Modes.{TargetSelection}
use luminal_vgd.Proto.Err
use luminal_vgd.Session.State.{
  Monitor, SessionTable, ModeUpdate, ModeUpdateResult, applied, not_applied, blocked, commits,
  settled, target_base,
}
use luminal_vgd.Session.Update.{
  expire_block, decide, queue, block_for, next_seq, modes_eq, unchanged,
}
use luminal_vgd.Session.Settle.{conclude, settle_modes}
use luminal_vgd.Session.Reports.{
  decide-queued, reported, queue-reported, modes_eq_refl, modes_ne, is_empty-length,
  decide-in_force, decide-queues, settle_modes-update_seq,
}

-- The answer of `update_modes` to the selection `s` for the monitor `m`, stored under `k`.
abbrev pub ask : SessionTable → ℕ → ℕ → Monitor → TargetSelection → ModeUpdate
ask t token k m s =
    let m' = expire_block token m in
    (decide (record t { monitors = insert k m' t.monitors }) k m' s).0

-- The update that `decide` queued for `s` is reported with `r`, and `s` is asked for again under
-- the commit token `token`: the report is honoured, and the monitor and the second answer satisfy
-- `Q`.
abbrev pub ThenAgain :
    SessionTable
    → ℕ
    → ℕ
    → ℕ
    → Monitor
    → TargetSelection
    → ModeUpdateResult
    → (Monitor → ModeUpdate → Type 0)
    → Type 0
ThenAgain t token k seq m s r Q =
    let settling = settle_modes (decide t k m s).1 k seq r s.targets in
    (settling.0 ≡ settled)
    × (m' : Monitor) × (lookup k settling.1.monitors ≡ some m')
    × Q m' (ask settling.1 token k m' s)

-- An update that `decide` queued and that the host then applied is in force, and asking for the
-- same list again queues nothing. The sequence numbers have not wrapped.
pub applied-in_force :
    (t : SessionTable) (token k seq : ℕ) (m : Monitor) (s : TargetSelection)
    → m.settled_seq ≤ t.update_seq
    → t.update_seq + 1 < 2 ^ 64
    → (decide t k m s).0.queued ≡ some seq
    → ThenAgain t token k seq m s applied (λ m' u.
      (m'.target_modes ≡ s.targets)
      × (m'.pending_targets ≡ none)
      × (u.queued ≡ none)
      × (u.pending ≡ false)
      × (u.refused ≡ false)
      × (u.targets ≡ s.targets))
unfolding conclude commits unchanged target_base block_for expire_block
applied-in_force t token k seq m s below small q =
    let (something, b, new, e, last) = decide-queued t k seq m s q in
    let (honoured, stored) = queue-reported t k m s applied s.targets (omega arith) in
    let m1 = reported t m s.targets applied s.targets in
    let took : m1.target_modes ≡ s.targets = rw (is_empty-length s something) refl in
    let same : modes_eq s.targets m1.target_modes ≡ true =
      ap (modes_eq s.targets) took ∙ modes_eq_refl s.targets in
    let t1 = (settle_modes (queue t k m s).1 k (next_seq t) applied s.targets).1 in
    let t2 : SessionTable = record t1 { monitors = insert k m1 t1.monitors } in
    let again = decide-in_force t2 k m1 s something refl same in
    rw (e, last)
      (
        honoured,
        m1,
        stored,
        (
          took,
          refl,
          ap (λ x. x.0.queued) again,
          ap (λ x. x.0.pending) again,
          ap (λ x. x.0.refused) again,
          ap (λ x. x.0.targets) again,
        ),
      )

-- An update that `decide` queued and that the host did not apply leaves the list in force as it
-- was, and asking for the same list again queues it again, unless it is the list in force. The
-- sequence numbers have not wrapped.
pub not_applied-queued_again :
    (t : SessionTable) (token k seq : ℕ) (m : Monitor) (s : TargetSelection)
    → m.settled_seq ≤ t.update_seq
    → t.update_seq + 1 < 2 ^ 64
    → s.targets ≢ m.target_modes
    → (decide t k m s).0.queued ≡ some seq
    → ThenAgain t token k seq m s not_applied (λ m' u.
      (m'.target_modes ≡ m.target_modes)
      × (m'.pending_targets ≡ none)
      × (m'.last_error ≡ Err.update_failed)
      × (u.queued ≡ some ((seq + 1) % 2 ^ 64))
      × (u.targets ≡ s.targets))
unfolding conclude commits target_base block_for expire_block queue
not_applied-queued_again t token k seq m s below small other q =
    let (something, b, new, e, last) = decide-queued t k seq m s q in
    let (honoured, stored) = queue-reported t k m s not_applied s.targets (omega arith) in
    let m1 = reported t m s.targets not_applied s.targets in
    let t1 = (settle_modes (queue t k m s).1 k (next_seq t) not_applied s.targets).1 in
    let t2 : SessionTable = record t1 { monitors = insert k m1 t1.monitors } in
    let again = decide-queues t2 k m1 s something refl (modes_ne s.targets m.target_modes other) in
    let seq' : next_seq t2 ≡ (next_seq t + 1) % 2 ^ 64 =
      ap (λ x. (x + 1) % 2 ^ 64)
        (settle_modes-update_seq (queue t k m s).1 k (next_seq t) not_applied s.targets) in
    rw (e, last)
      (
        honoured,
        m1,
        stored,
        (refl, refl, refl, ap (λ x. x.0.queued) again ∙ ap some seq', ap (λ x. x.0.targets) again),
      )

-- After the user's next commit, which moves the token on, a list that was held back is queued
-- again, unless it is the list in force. The sequence numbers have not wrapped.
pub blocked-queued_again :
    (t : SessionTable) (token later idx k seq : ℕ) (m : Monitor) (s : TargetSelection)
    → m.settled_seq ≤ t.update_seq
    → t.update_seq + 1 < 2 ^ 64
    → token ≢ later
    → s.targets ≢ m.target_modes
    → (decide t k m s).0.queued ≡ some seq
    → ThenAgain t later k seq m s (blocked idx token) (λ m' u.
      (u.queued ≡ some ((seq + 1) % 2 ^ 64)) × (u.blocked ≡ none) × (u.targets ≡ s.targets))
unfolding conclude commits target_base block_for expire_block queue
blocked-queued_again t token later idx k seq m s below small moved other q =
    let (something, b, new, e, last) = decide-queued t k seq m s q in
    let r = blocked idx token in
    let (honoured, stored) = queue-reported t k m s r s.targets (omega arith) in
    let m1 = reported t m s.targets r s.targets in
    let m2 : Monitor = record m1 { blocked = none } in
    let t1 = (settle_modes (queue t k m s).1 k (next_seq t) r s.targets).1 in
    let t2 : SessionTable = record t1 { monitors = insert k m2 t1.monitors } in
    let again = decide-queues t2 k m2 s something refl (modes_ne s.targets m.target_modes other) in
    let seq' : next_seq t2 ≡ (next_seq t + 1) % 2 ^ 64 =
      ap (λ x. (x + 1) % 2 ^ 64)
        (settle_modes-update_seq (queue t k m s).1 k (next_seq t) r s.targets) in
    rw (e, last)
      (
        honoured,
        m1,
        stored,
        rw (==_ne token later moved, ask)
            (
              ap (λ x. x.0.queued) again ∙ ap some seq',
              ap (λ x. x.0.blocked) again,
              ap (λ x. x.0.targets) again,
            ),
      )
