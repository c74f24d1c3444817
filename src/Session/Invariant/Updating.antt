-- ===== src/Session/Invariant/Updating.antt =====
-- Changing a monitor in place keeps the invariant of crates/luminal-vgd-core/src/session.rs.
use luminal_vgd.Prelude.{
  ℕ, ◌+◌, ◌%◌, ◌^◌, ◌<◌, ◌≡◌, refl, subst, ap, ◌≢◌, inl, inr, false, some, List, [], ◌∷◌, arith,
  Bool-cases, Option-cases, Result-cases, ok, err, In, length, ◌==◌,
}
use luminal_vgd.Prelude.Map.{Map, lookup, insert, lookup-insert}
use luminal_vgd.Error.{Fallible, no_such_session}
use luminal_vgd.Proto.{ModeSpec, as_raw}
use luminal_vgd.Modes.{Mode, TargetSelection, validate_list, select_targets, is_empty}
use luminal_vgd.Modes.Targets.{select_targets-Selects}
use luminal_vgd.Session.State.{Monitor, PendingTargets, SessionTable, ModeUpdate, target_base}
use luminal_vgd.Session.Lease.{ping}
use luminal_vgd.Session.Update.{
  expire_block, queue, decide, block_for, update_monitor, update_modes, next_seq, hdr_raw, modes_eq,
}
use luminal_vgd.Session.Invariant.Defs.{IsPublishable, IsMonitor, IsValid, replace-IsValid}

pub lookup_stored : (k : ℕ) (m : Monitor) (ms : Map Monitor) → lookup k (insert k m ms) ≡ some m
lookup_stored k m ms = ground (arith, lookup-insert k k m ms)

-- Feeding a lease keeps the invariant.
pub ping-IsValid : (t : SessionTable) (now k : ℕ) → IsValid t → IsValid (ping t now k).1
unfolding ping
ping-IsValid t now k v = elim (Option-cases (lookup k t.monitors)) [
  | inl e ↦ rw (e, ping) v
  | inr (m, e) ↦
      let w = v.monitors k m e in
      rw (e, ping)
        (replace-IsValid t k t.update_seq m (record m { last_ping_ms = now }) v (omega arith) e refl
          (record {
            keyed = w.keyed;
            in_force = w.in_force;
            outstanding = w.outstanding;
            ordered = w.ordered;
            settled_below = w.settled_below;
            reserved = w.reserved;
          }))
]

expire_block-IsMonitor :
    (token issued k : ℕ) (res : Map ℕ) (m : Monitor)
    → IsMonitor issued res k m
    → IsMonitor issued res k (expire_block token m)
      × ((expire_block token m).display_id ≡ m.display_id)
      × ((expire_block token m).modes ≡ m.modes)
unfolding expire_block
expire_block-IsMonitor token issued k res m w = elim (Option-cases m.blocked) [
  | inl e ↦ rw (e, expire_block) (w, refl, refl)
  | inr (b, e) ↦ elim (Bool-cases (b.token == token)) [
    | inl same ↦ rw (e, same, expire_block) (w, refl, refl)
    | inr moved ↦
        rw (e, moved, expire_block)
          (
            record {
              keyed = w.keyed;
              in_force = w.in_force;
              outstanding = w.outstanding;
              ordered = w.ordered;
              settled_below = w.settled_below;
              reserved = w.reserved;
            },
            refl,
            refl,
          )
  ]
]

-- The selection that `update_modes` queues may be published.
selection-IsPublishable :
    (superset requested : List Mode)
    → is_empty (select_targets superset requested) ≡ false
    → IsPublishable superset (select_targets superset requested).targets
unfolding is_empty
selection-IsPublishable superset requested e = record {
  not_empty = λ q. ground (arith, ap length q);
  within = (select_targets-Selects superset requested).supported_only;
}

seq_of_record :
    {seq : ℕ} {targets : List Mode} (p : PendingTargets)
    → some (record { seq = seq; targets = targets }) ≡ some p
    → p.seq ≡ seq
seq_of_record p q = cc

targets_of_record :
    {seq : ℕ} {targets : List Mode} (p : PendingTargets)
    → some (record { seq = seq; targets = targets }) ≡ some p
    → targets ≡ p.targets
targets_of_record p q = cc

queue-IsValid :
    (t : SessionTable) (k : ℕ) (m : Monitor) (s : TargetSelection)
    → IsValid t
    → t.update_seq + 1 < 2 ^ 64
    → lookup k t.monitors ≡ some m
    → IsPublishable m.modes s.targets
    → IsValid (queue t k m s).1
unfolding queue
queue-IsValid t k m s v small e h =
    let w = v.monitors k m e in
    replace-IsValid t k (next_seq t) m _ v (omega arith) e refl (record {
      keyed = w.keyed;
      in_force = w.in_force;
      outstanding = λ p q. subst (IsPublishable m.modes) (targets_of_record p q) h;
      ordered = λ p q. omega (arith, seq_of_record p q);
      settled_below = omega (arith, w.settled_below);
      reserved = w.reserved;
    })

pub decide-IsValid :
    (t : SessionTable) (k : ℕ) (m : Monitor) (requested : List Mode)
    → IsValid t
    → t.update_seq + 1 < 2 ^ 64
    → lookup k t.monitors ≡ some m
    → IsValid (decide t k m (select_targets m.modes requested)).1
unfolding decide
decide-IsValid t k m requested v small e =
    let s = select_targets m.modes requested in
    elim (Bool-cases (is_empty s)) [
      | inl nothing ↦ rw (nothing, decide) v
      | inr something ↦ elim (Option-cases (block_for m s.targets)) [
        | inr (i, q) ↦ rw (something, q, decide) v
        | inl q ↦ elim (Bool-cases (modes_eq s.targets (target_base m))) [
          | inl same ↦ rw (something, q, same, decide) v
          | inr new ↦
              rw (something, q, new, decide)
                (queue-IsValid t k m s v small e
                  (selection-IsPublishable m.modes requested something))
        ]
      ]
    ]

pub superset_not_empty :
    (superset targets : List Mode) → IsPublishable superset targets → superset ≢ []
superset_not_empty superset [] w q = w.not_empty refl
superset_not_empty superset (x ∷ xs) w q = subst (In x) q (w.within x (inl refl))

update_monitor-IsValid :
    (t : SessionTable) (k : ℕ) (m : Monitor) (specs : List ModeSpec) (caps : ℕ) (modes : List Mode)
    → IsValid t
    → t.update_seq + 1 < 2 ^ 64
    → lookup k t.monitors ≡ some m
    → m.modes ≡ modes
    → (ans : Fallible ModeUpdate) × (t' : SessionTable) × (update_monitor t k m specs caps modes
        ≡ some (ans, t'))
      × IsValid t'
unfolding update_monitor
update_monitor-IsValid t k m specs caps [] v small e q =
    absurd (superset_not_empty m.modes m.target_modes (v.monitors k m e).in_force q)
update_monitor-IsValid t k m specs caps (pref ∷ rest) v small e q =
    elim (Result-cases (
      validate_list specs (length specs % 2 ^ 32) (as_raw pref.bit_depth) (hdr_raw pref.hdr)
        caps)) [
          | inr (x, f) ↦ (err x, t, rw (f, update_monitor) refl, v)
          | inl (requested, f) ↦
              let d = decide t k m (select_targets m.modes requested) in
              (ok d.0, d.1, rw (f, update_monitor) refl, decide-IsValid t k m requested v small e)
        ]

-- In a valid table that has issued fewer than 2^64 - 1 updates, `update_modes` does not panic, and
-- it leaves a valid table: in particular what it queues is not empty and within the monitor's
-- superset.
pub update_modes-IsValid :
    (t : SessionTable) (k : ℕ) (specs : List ModeSpec) (caps token : ℕ)
    → IsValid t
    → t.update_seq + 1 < 2 ^ 64
    → (ans : Fallible ModeUpdate) × (t' : SessionTable) × (update_modes t k specs caps token
        ≡ some (ans, t'))
      × IsValid t'
unfolding update_modes
update_modes-IsValid t k specs caps token v small = elim (Option-cases (lookup k t.monitors)) [
  | inl e ↦ (err no_such_session, t, rw (e, update_modes) refl, v)
  | inr (m, e) ↦
      let (w, same, _) =
        expire_block-IsMonitor token t.update_seq k t.connectors.reservations m
          (v.monitors k m e) in
      let m' = expire_block token m in
      let t1 : SessionTable = record t { monitors = insert k m' t.monitors } in
      let (ans, t', r, v') =
        update_monitor-IsValid t1 k m' specs caps m'.modes
          (replace-IsValid t k t.update_seq m m' v (omega arith) e same w) small
          (lookup_stored k m' t.monitors) refl in
      (ans, t', rw (e, update_modes) r, v')
]
