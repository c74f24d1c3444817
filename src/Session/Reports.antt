-- ===== src/Session/Reports.antt =====
-- How reports of updates follow each other, in `settle_modes` and `update_modes` of
-- crates/luminal-vgd-core/src/session.rs.
use luminal_vgd.Prelude.{
  ℕ, ◌≤◌, ◌<◌, ◌≡◌, refl, sym, ap, ◌∙◌, ◌≢◌, inl, inr, true, false, not, ◌&&◌, ◌||◌, ◌⊎◌, none,
  some, List, arith, Bool-cases, Option-cases, length, ◌==◌, ==_refl, leb, ltb,
}
use luminal_vgd.Prelude.Map.{lookup}
use luminal_vgd.Modes.{Mode, TargetSelection, is_empty}
use luminal_vgd.Session.State.{
  Monitor, SessionTable, ModeUpdate, ModeUpdateResult, blocked, commits, settled, stale,
  target_base,
}
use luminal_vgd.Session.Update.{
  decide, queue, block_for, next_seq, modes_eq, modes_eq_iff, unchanged,
}
use luminal_vgd.Session.Settle.{current, conclude, settle_monitor, settle_modes}
use luminal_vgd.Session.Invariant.{lookup_stored}

-- A report is stale where the session is gone or has settled as much.
pub settle_modes-stale :
    (t : SessionTable) (k seq : ℕ) (r : ModeUpdateResult) (published : List Mode)
    → (lookup k t.monitors ≡ none)
      ⊎ ((m : Monitor) × (lookup k t.monitors ≡ some m) × (seq ≤ m.settled_seq))
    → settle_modes t k seq r published ≡ (stale, t)
unfolding settle_modes
settle_modes-stale t k seq r published (inl e) = rw (e, settle_modes) refl
settle_modes-stale t k seq r published (inr (m, e, h)) = rw (e, settle_modes) (ground arith)

not_queued :
    {P : Type 0} (t : SessionTable) (k seq : ℕ) (m : Monitor) (s : TargetSelection)
    (d : ModeUpdate × SessionTable)
    → decide t k m s ≡ d
    → d.0.queued ≡ none
    → (decide t k m s).0.queued ≡ some seq
    → P
not_queued t k seq m s d e n q =
    let clash : none ≡ some seq = sym n ∙ sym (ap (λ x. x.0.queued) e) ∙ q in cc

-- A selection that `decide` queues is not empty, is not blocked, and differs from the base.
pub decide-queued :
    (t : SessionTable) (k seq : ℕ) (m : Monitor) (s : TargetSelection)
    → (decide t k m s).0.queued ≡ some seq
    → (is_empty s ≡ false)
      × (block_for m s.targets ≡ none)
      × (modes_eq s.targets (target_base m) ≡ false)
      × (decide t k m s ≡ queue t k m s)
      × (seq ≡ next_seq t)
unfolding decide unchanged queue
decide-queued t k seq m s q = elim (Bool-cases (is_empty s)) [
  | inl nothing ↦
      not_queued t k seq m s (unchanged m s m.target_modes true none, t) (rw (nothing, decide) refl)
        refl q
  | inr something ↦ elim (Option-cases (block_for m s.targets)) [
    | inr (i, b) ↦
        not_queued t k seq m s (unchanged m s m.target_modes false (some i), t)
          (rw (something, b, decide) refl) refl q
    | inl b ↦ elim (Bool-cases (modes_eq s.targets (target_base m))) [
      | inl same ↦
          not_queued t k seq m s (unchanged m s s.targets false none, t)
            (rw (something, b, same, decide) refl) refl q
      | inr new ↦
          let e : decide t k m s ≡ queue t k m s = rw (something, b, new, decide) refl in
          let f : some (next_seq t) ≡ some seq = sym (ap (λ x. x.0.queued) e) ∙ q in
          (something, b, new, e, cc)
    ]
  ]
]

-- The monitor that a queued selection leaves.
abbrev pub queued_monitor : SessionTable → Monitor → List Mode → Monitor
queued_monitor t m targets = record m {
  pending_targets = some (record { seq = next_seq t; targets = targets });
  blocked = none;
}

-- What a report of the queued update leaves of the monitor.
abbrev pub reported : SessionTable → Monitor → List Mode → ModeUpdateResult → List Mode → Monitor
reported t m targets r published =
    conclude
      (record (queued_monitor t m targets) { settled_seq = next_seq t; pending_targets = none })
      (record { seq = next_seq t; targets = targets }) r (commits r && not (length published == 0))
      published

-- The report of the update just queued is honoured.
pub queue-reported :
    (t : SessionTable) (k : ℕ) (m : Monitor) (s : TargetSelection) (r : ModeUpdateResult)
    (published : List Mode)
    → m.settled_seq < next_seq t
    → ((settle_modes (queue t k m s).1 k (next_seq t) r published).0 ≡ settled)
      × (lookup k (settle_modes (queue t k m s).1 k (next_seq t) r published).1.monitors
          ≡ some (reported t m s.targets r published))
unfolding settle_modes queue settle_monitor current
queue-reported t k m s r published h =
    let e = lookup_stored k (queued_monitor t m s.targets) t.monitors in
    let fresh : (leb (next_seq t) m.settled_seq || ltb (next_seq t) (next_seq t)) ≡ false =
      ground arith in
    rw (e, fresh, ==_refl (next_seq t), settle_modes, settle_monitor, current)
      (refl, lookup_stored k _ _)

pub modes_eq_refl : (xs : List Mode) → modes_eq xs xs ≡ true
modes_eq_refl xs = (modes_eq_iff xs xs).1 refl

pub modes_ne : (xs ys : List Mode) → xs ≢ ys → modes_eq xs ys ≡ false
modes_ne xs ys n = ground (arith, (modes_eq_iff xs ys).0)

pub is_empty-length : (s : TargetSelection) → is_empty s ≡ false → (length s.targets == 0) ≡ false
unfolding is_empty
is_empty-length s e = e

pub decide-in_force :
    (t : SessionTable) (k : ℕ) (m : Monitor) (s : TargetSelection)
    → is_empty s ≡ false
    → block_for m s.targets ≡ none
    → modes_eq s.targets (target_base m) ≡ true
    → decide t k m s ≡ (unchanged m s s.targets false none, t)
unfolding decide
decide-in_force t k m s something b same = rw (something, b, same, decide) refl

pub decide-queues :
    (t : SessionTable) (k : ℕ) (m : Monitor) (s : TargetSelection)
    → is_empty s ≡ false
    → block_for m s.targets ≡ none
    → modes_eq s.targets (target_base m) ≡ false
    → decide t k m s ≡ queue t k m s
unfolding decide
decide-queues t k m s something b new = rw (something, b, new, decide) refl

pub decide-blocked :
    (t : SessionTable) (k idx : ℕ) (m : Monitor) (s : TargetSelection)
    → is_empty s ≡ false
    → block_for m s.targets ≡ some idx
    → decide t k m s ≡ (unchanged m s m.target_modes false (some idx), t)
unfolding decide
decide-blocked t k idx m s something b = rw (something, b, decide) refl

pub settle_modes-update_seq :
    (t : SessionTable) (k seq : ℕ) (r : ModeUpdateResult) (published : List Mode)
    → (settle_modes t k seq r published).1.update_seq ≡ t.update_seq
unfolding settle_modes
settle_modes-update_seq t k seq r published = elim (Option-cases (lookup k t.monitors)) [
  | inl e ↦ rw (e, settle_modes) refl
  | inr (m, e) ↦ elim (Bool-cases (leb seq m.settled_seq || ltb t.update_seq seq)) [
    | inl old ↦ rw (e, old, settle_modes) refl
    | inr fresh ↦ rw (e, fresh, settle_modes) refl
  ]
]
