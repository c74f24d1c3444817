-- ===== src/Recovery/Poller.antt =====
-- `device_duck_poller` of crates/luminal-vgd-driver/src/shell/control.rs: one round of its loop,
-- with what the round reads.
pub mod Deadline
use luminal_vgd.Prelude.{
  ℕ, zero, suc, ◌+◌, ◌-◌, Bool, true, false, not, ◌&&◌, Option, none, some, List, [], ◌∷◌, leb,
  ◌==◌, if◌then◌else◌, is_some, length, ◌||◌,
}
use luminal_vgd.Prelude.Map.{Map, lookup}
use luminal_vgd.Tdr.{RingLive, ring_tick, is_pending, is_settled}
use luminal_vgd.Recovery.{
  MonitorRuntime, Shell, requalify, deadline_depart, finish_device_duck, sent_task, recovered_at_ms,
  unrecovered_sessions,
}

abbrev pub tdr_recovery_budget_ms : ℕ
tdr_recovery_budget_ms = 600_000

abbrev pub tdr_recovery_probe_every_ms : ℕ
tdr_recovery_probe_every_ms = 2_000

abbrev pub tdr_probe_deadline_ms : ℕ
tdr_probe_deadline_ms = 15_000

abbrev pub tdr_probe_respawn_after_hang_ms : ℕ
tdr_probe_respawn_after_hang_ms = 60_000

abbrev pub tdr_reassign_grace_ms : ℕ
tdr_reassign_grace_ms = 10_000

pub record Poller : Type 0 where
  pub epoch : ℕ
  pub sessions : List ℕ
  pub started : ℕ
  -- when the probe that runs was spawned
  pub probe : Option ℕ
  pub last_hang_at : Option ℕ
  pub last_probe_step : ℕ
  pub recovered_at : Option ℕ

unfoldable pub new_poller : ℕ → List ℕ → ℕ → Poller
new_poller epoch sessions now = record {
  epoch = epoch;
  sessions = sessions;
  started = now;
  probe = none;
  last_hang_at = none;
  last_probe_step = now;
  recovered_at = none;
}

-- What a probe thread is found to be.
pub data ProbeStatus : Type 0 where
  -- with its answer
  finished : Bool → ProbeStatus
  running : ProbeStatus

-- What one round reads.
pub record Reading : Type 0 where
  pub now : ℕ
  pub current_epoch : ℕ
  pub monitors : Map MonitorRuntime
  pub lock_available : ℕ → Bool
  pub status : ProbeStatus
  pub spawned : Bool
  -- the monitors, when the unrecovered sessions are looked up
  pub later_monitors : Map MonitorRuntime
  pub sent : Bool

-- What follows a round: another, nothing, or a look at the mirrors after the latch is free.
pub data Next : Type 0 where
  going : Poller → Next
  ended : Next
  rechecking : List ℕ → Next

unfoldable pub covered_rings : Map MonitorRuntime → List ℕ → List (ℕ × RingLive)
covered_rings monitors [] = []
covered_rings monitors (sid ∷ sids) =
    let rest = covered_rings monitors sids in
    elim (lookup sid monitors) [ none ↦ rest | some rt ↦ (sid, rt.live) ∷ rest ]

unfoldable pub count_pending : (ℕ → Bool) → List (ℕ × RingLive) → ℕ
count_pending lock_available [] = 0
count_pending lock_available ((sid, live) ∷ rings) =
    let rest = count_pending lock_available rings in
    if is_pending (ring_tick live (is_settled live || lock_available sid)) then rest + 1 else rest

abbrev pub sessions_of : List (ℕ × RingLive) → List ℕ
sessions_of [] = []
sessions_of ((sid, live) ∷ rings) = sid ∷ sessions_of rings

-- `x.elapsed() >= d`
abbrev pub has_elapsed : ℕ → ℕ → ℕ → Bool
has_elapsed now at d = leb d (now - at)

unfoldable pub check_probe : Reading → Poller → Poller
check_probe r p = elim p.probe [
  | none ↦ p
  | some at ↦ elim r.status [
    | finished answer ↦ record p {
      probe = none;
      recovered_at = if answer && not (is_some p.recovered_at) then some r.now else p.recovered_at;
    }
    | running ↦
        if has_elapsed r.now at tdr_probe_deadline_ms
        then record p { probe = none; last_hang_at = some r.now }
        else p
  ]
]

abbrev pub may_respawn : ℕ → Option ℕ → Bool
may_respawn now none = true
may_respawn now (some at) = has_elapsed now at tdr_probe_respawn_after_hang_ms

unfoldable pub spawn_probe : Reading → Poller → Poller
spawn_probe r p =
    if not (is_some p.probe)
      && not (is_some p.recovered_at)
      && may_respawn r.now p.last_hang_at
      && r.spawned
    then record p { probe = some r.now }
    else p

unfoldable pub probe_step : Reading → Poller → Poller
probe_step r p =
    if has_elapsed r.now p.last_probe_step tdr_recovery_probe_every_ms
    then spawn_probe r (check_probe r (record p { last_probe_step = r.now }))
    else p

abbrev pub grace_over : ℕ → Option ℕ → Bool
grace_over now none = false
grace_over now (some at) = has_elapsed now at tdr_reassign_grace_ms

-- The two arms that hand the rest to the effects worker.
unfoldable pub give_over : Reading → Poller → Shell → Next × Shell
give_over r p s =
    let unrecovered = unrecovered_sessions r.later_monitors p.sessions in
    if grace_over r.now p.recovered_at
    then (if r.sent
        then (ended, sent_task (requalify p.epoch unrecovered) s)
        else (ended, finish_device_duck s))
    else if leb (p.started + tdr_recovery_budget_ms) r.now
    then (if r.sent
        then (ended, sent_task (deadline_depart p.epoch unrecovered) s)
        else (ended, finish_device_duck s))
    else (going p, s)

unfoldable pub poller_round : Reading → Poller → Shell → Next × Shell
poller_round r p s =
    let rings = covered_rings r.monitors p.sessions in
    if not (r.current_epoch == p.epoch)
    then (ended, finish_device_duck s)
    else if leb (length rings) 0
    then (ended, finish_device_duck s)
    else if count_pending r.lock_available rings == 0
    then (rechecking (sessions_of rings), finish_device_duck (recovered_at_ms r.now s))
    else give_over r (probe_step r p) s

-- The loop, over what its rounds read.
unfoldable pub poll : List Reading → Next × Shell → Next × Shell
poll [] outcome = outcome
poll (r ∷ rs) (going p, s) = poll rs (poller_round r p s)
poll (r ∷ rs) (ended, s) = (ended, s)
poll (r ∷ rs) (rechecking sids, s) = (rechecking sids, s)
