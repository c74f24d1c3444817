-- ===== src/Session/Invariant/Settling.antt =====
-- `settle_modes` of crates/luminal-vgd-core/src/session.rs, against the invariant of the table.
use luminal_vgd.Prelude.{
  ℕ, ◌≤◌, ◌≡◌, refl, ap, ◌≢◌, inl, inr, true, false, Bool, not, ◌&&◌, ◌||◌, none, some, List, [],
  arith, Bool-cases, Option-cases, In, length, ◌==◌, leb, ltb, if◌then◌else◌,
}
use luminal_vgd.Prelude.Map.{Map, lookup}
use luminal_vgd.Modes.{Mode}
use luminal_vgd.Session.State.{
  Monitor, PendingTargets, SessionTable, ModeUpdateResult, applied, not_applied, blocked, commits,
}
use luminal_vgd.Session.Settle.{current, conclude, settle_monitor, settle_modes}
use luminal_vgd.Session.Invariant.Defs.{IsPublishable, IsMonitor, IsValid, replace-IsValid}

-- A list taken over is published.
taken-IsPublishable :
    (superset old published : List Mode) (took : Bool)
    → IsPublishable superset old
    → ((x : Mode) → In x published → In x superset)
    → (took ≡ true → published ≢ [])
    → IsPublishable superset (if took then published else old)
taken-IsPublishable superset old published true w h n = record { not_empty = n refl; within = h }
taken-IsPublishable superset old published false w h n = w

conclude-IsMonitor :
    (issued k : ℕ) (res : Map ℕ) (m : Monitor) (p : PendingTargets) (r : ModeUpdateResult)
    (took : Bool) (published : List Mode)
    → IsMonitor issued res k m
    → ((x : Mode) → In x published → In x m.modes)
    → (took ≡ true → published ≢ [])
    → IsMonitor issued res k (conclude m p r took published)
unfolding conclude
conclude-IsMonitor issued k res m p applied took published w h n = record {
  keyed = w.keyed;
  in_force = taken-IsPublishable m.modes m.target_modes published took w.in_force h n;
  outstanding = w.outstanding;
  ordered = w.ordered;
  settled_below = w.settled_below;
  reserved = w.reserved;
}
conclude-IsMonitor issued k res m p not_applied took published w h n = record {
  keyed = w.keyed;
  in_force = w.in_force;
  outstanding = w.outstanding;
  ordered = w.ordered;
  settled_below = w.settled_below;
  reserved = w.reserved;
}
conclude-IsMonitor issued k res m p (blocked i token) took published w h n = record {
  keyed = w.keyed;
  in_force = w.in_force;
  outstanding = w.outstanding;
  ordered = w.ordered;
  settled_below = w.settled_below;
  reserved = w.reserved;
}

-- A commit that published nothing takes nothing over.
pub took_some :
    (r : ModeUpdateResult) (published : List Mode)
    → (commits r && not (length published == 0)) ≡ true
    → published ≢ []
took_some r published e q = ground (arith, ap length q)

conclude-keeps :
    (m : Monitor) (p : PendingTargets) (r : ModeUpdateResult) (took : Bool) (published : List Mode)
    → ((conclude m p r took published).display_id ≡ m.display_id)
      × ((conclude m p r took published).settled_seq ≡ m.settled_seq)
unfolding conclude
conclude-keeps m p applied took published = (refl, refl)
conclude-keeps m p not_applied took published = (refl, refl)
conclude-keeps m p (blocked i token) took published = (refl, refl)

-- What a settle that is honoured leaves of one monitor.
pub settle_monitor-IsMonitor :
    (issued k seq : ℕ) (res : Map ℕ) (m : Monitor) (r : ModeUpdateResult) (published : List Mode)
    → seq ≤ issued
    → IsMonitor issued res k m
    → ((x : Mode) → In x published → In x m.modes)
    → IsMonitor issued res k (settle_monitor m seq r published).1
      × ((settle_monitor m seq r published).1.display_id ≡ m.display_id)
      × ((settle_monitor m seq r published).1.settled_seq ≡ seq)
unfolding settle_monitor
settle_monitor-IsMonitor issued k seq res m r published small w h =
    elim (Option-cases (current m seq)) [
      | inr (p, e) ↦
          let m' : Monitor = record m { settled_seq = seq; pending_targets = none } in
          let kept = conclude-keeps m' p r (commits r && not (length published == 0)) published in
          rw (e, settle_monitor)
            (
              conclude-IsMonitor issued k res m' p r _ published
                  (record {
                    keyed = w.keyed;
                    in_force = w.in_force;
                    outstanding = λ p' q. cc;
                    ordered = λ p' q. cc;
                    settled_below = small;
                    reserved = w.reserved;
                  })
                  h (took_some r published),
              kept.0,
              kept.1,
            )
      | inl e ↦ elim (Bool-cases (commits r && not (length published == 0))) [
        | inl took ↦
            rw (e, took, settle_monitor)
              (
                record {
                  keyed = w.keyed;
                  in_force = record { not_empty = took_some r published took; within = h };
                  outstanding = w.outstanding;
                  ordered = w.ordered;
                  settled_below = small;
                  reserved = w.reserved;
                },
                refl,
                refl,
              )
        | inr left ↦
            rw (e, left, settle_monitor)
              (
                record {
                  keyed = w.keyed;
                  in_force = w.in_force;
                  outstanding = w.outstanding;
                  ordered = w.ordered;
                  settled_below = small;
                  reserved = w.reserved;
                },
                refl,
                refl,
              )
      ]
    ]

-- Whatever result is reported for whatever update, a settle keeps the table valid, where the modes
-- the host published are within the superset of the monitor.
pub settle_modes-IsValid :
    (t : SessionTable) (k seq : ℕ) (r : ModeUpdateResult) (published : List Mode)
    → IsValid t
    → ((m : Monitor) → lookup k t.monitors ≡ some m → (x : Mode) → In x published → In x m.modes)
    → IsValid (settle_modes t k seq r published).1
unfolding settle_modes
settle_modes-IsValid t k seq r published v h = elim (Option-cases (lookup k t.monitors)) [
  | inl e ↦ rw (e, settle_modes) v
  | inr (m, e) ↦ elim (Bool-cases (leb seq m.settled_seq || ltb t.update_seq seq)) [
    | inl old ↦ rw (e, old, settle_modes) v
    | inr fresh ↦
        let (w, same, _) =
          settle_monitor-IsMonitor t.update_seq k seq t.connectors.reservations m r published
            (ground arith) (v.monitors k m e) (h m e) in
        rw (e, fresh, settle_modes) (replace-IsValid t k t.update_seq m _ v (omega arith) e same w)
  ]
]
