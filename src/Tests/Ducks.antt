-- ===== src/Tests/Ducks.antt =====
-- A device duck, for crates/luminal-vgd-driver/src/shell/control.rs.
use luminal_vgd.Prelude.{
  ℕ, Bool, true, not, ◌&&◌, none, [], ◌∷◌, ◌++◌, In, ◌≡◌, ◌≢◌, ◌↔◌, inl, inr, ltb, ◌==◌,
  if◌then◌else◌, arith,
}
use luminal_vgd.Prelude.Map.{Map, lookup}
use luminal_vgd.Proto.RingState
use luminal_vgd.Tdr.{RingLive}
use luminal_vgd.Tdr
use luminal_vgd.Recovery.{
  MonitorRuntime, unrecovered_sessions, is_unrecovered, is_empty, run_tdr_device_duck,
  run_tdr_requalify, run_tdr_deadline_depart, queue_tdr_duck, tdr_max_duck_cycles,
}
use luminal_vgd.Recovery.Poller.{Poller, Reading, running, going, poll, poller_round}
use luminal_vgd.Recovery.Poller.Deadline.{poll-ends}
use luminal_vgd.Recovery.Latch.{at_rest, arm, Reach, start, later, in_flight}
use luminal_vgd.Recovery.Latch.InFlight.{Reach-Latched}
use luminal_vgd.Recovery.Departures.{departures_unrecovered}

abbrev rebuilding_live : RingLive
rebuilding_live = record (Tdr.new true) { transport = true; state = RingState.rebuilding }

abbrev one_monitor : Map MonitorRuntime
one_monitor = (5, record { live = rebuilding_live; adapter_luid = 77 }) ∷ []

abbrev failed_once : Reach (record at_rest { shell = queue_tdr_duck true 1 5 9 at_rest.shell })
failed_once = later start (arm at_rest true 1 5 9)

-- A worker fails again while the first duck is queued.
abbrev failed_twice :
    Reach (record at_rest {
      shell = queue_tdr_duck true 1 5 9 (queue_tdr_duck true 1 5 9 at_rest.shell);
    })
failed_twice =
    later failed_once
      (arm (record at_rest { shell = queue_tdr_duck true 1 5 9 at_rest.shell }) true 1 5 9)

Reach-Latched_example :
    in_flight (record at_rest {
      shell = queue_tdr_duck true 1 5 9 (queue_tdr_duck true 1 5 9 at_rest.shell);
    })
    ≡ (if (queue_tdr_duck true 1 5 9 (queue_tdr_duck true 1 5 9 at_rest.shell)).duck_pending
        then 1
        else 0)
Reach-Latched_example = Reach-Latched failed_twice

abbrev watching : Poller
watching = record {
  epoch = 1;
  sessions = 5 ∷ [];
  started = 1_000;
  probe = none;
  last_hang_at = none;
  last_probe_step = 1_000;
  recovered_at = none;
}

abbrev reading : ℕ → Reading
reading now = record {
  now = now;
  current_epoch = 1;
  monitors = one_monitor;
  lock_available = λ _. true;
  status = running;
  spawned = true;
  later_monitors = one_monitor;
  sent = true;
}

poll-ends_example :
    (poll (reading 4_000 ∷ reading 601_000 ∷ []) (going watching, at_rest.shell)).0 ≢ going watching
poll-ends_example =
    poll-ends (reading 4_000 ∷ reading 601_000 ∷ []) watching watching at_rest.shell
      (inr (inl (omega arith)))

departures_unrecovered_example :
    ((run_tdr_requalify 1 700_000 one_monitor 1 1 (5 ∷ 6 ∷ []) at_rest.shell).departures ≡ (
      if 1 == 1
        && not (is_empty (unrecovered_sessions one_monitor (5 ∷ 6 ∷ [])))
        && ltb 0 tdr_max_duck_cycles
      then [] ++ (unrecovered_sessions one_monitor (5 ∷ 6 ∷ []) ∷ [])
      else []))
    × ((sid : ℕ)
        → In sid (unrecovered_sessions one_monitor (5 ∷ 6 ∷ []))
          ↔ (In sid (5 ∷ 6 ∷ []) × (is_unrecovered (lookup sid one_monitor) ≡ true)))
    × ((spawned : Bool) (sid : ℕ)
        → (run_tdr_device_duck 1 700_000 one_monitor spawned 1 sid at_rest.shell).1.departures ≡ [])
    × ((run_tdr_deadline_depart 1 one_monitor 1 (5 ∷ 6 ∷ []) at_rest.shell).departures ≡ [])
    × ((r : Reading) (p : Poller) → (poller_round r p at_rest.shell).1.departures ≡ [])
departures_unrecovered_example =
    departures_unrecovered 1 700_000 one_monitor 1 1 (5 ∷ 6 ∷ []) at_rest.shell (omega arith)
