-- ===== src/Recovery/Latch.antt =====
-- The latch of crates/luminal-vgd-driver/src/shell/control.rs that keeps one device duck in flight:
-- frame workers that fail, the effects worker and the poller, in any order.
pub mod InFlight
use luminal_vgd.Prelude.{
  ℕ, ◌+◌, Bool, true, false, not, leb, Option, none, some, List, [], ◌∷◌, length, length-append,
  ◌≡◌, refl, ◌==◌, if◌then◌else◌, arith,
}
use luminal_vgd.Prelude.Map.{Map}
use luminal_vgd.Recovery.{
  MonitorRuntime, Task, device_duck, requalify, deadline_depart, Shell, finish_device_duck,
  queue_tdr_duck, abandon_ducked, reset_cycles_if_new_incident, depart_fallback,
  run_tdr_device_duck, run_tdr_requalify, run_tdr_deadline_depart, sent_task, recovered_at_ms,
  covered_sessions, unrecovered_sessions,
}
use luminal_vgd.Dispatch.Cases.{if-arms}
use luminal_vgd.Recovery.Poller.{
  grace_over, tdr_recovery_budget_ms, covered_rings, count_pending, sessions_of, Poller, Reading,
  Next, going, ended, rechecking, new_poller, poller_round, give_over, probe_step,
}

pub record World : Type 0 where
  pub shell : Shell
  pub poller : Option Poller
  -- the sessions that pollers which have let go of the latch look at once more
  pub rechecks : List (List ℕ)

abbrev pub poller_of : (epoch now : ℕ) → Option (List ℕ) → Option Poller
poller_of epoch now none = none
poller_of epoch now (some sessions) = some (new_poller epoch sessions now)

abbrev pub after_duck : (epoch now : ℕ) → Option (List ℕ) × Shell → World → World
after_duck epoch now (sessions, s) w = record w { shell = s; poller = poller_of epoch now sessions }

abbrev pub after_round : Next × Shell → World → World
after_round (going p, s) w = record w { shell = s; poller = some p }
after_round (ended, s) w = record w { shell = s; poller = none }
after_round (rechecking sids, s) w = record w {
  shell = s;
  poller = none;
  rechecks = sids ∷ w.rechecks;
}

pub data Step : World → World → Type 0 where
  -- a frame worker meets a removed device, or a recheck finds a session that failed again
  arm :
      (w : World) (sent : Bool) (epoch session_id reason_hr : ℕ)
      → Step w (record w { shell = queue_tdr_duck sent epoch session_id reason_hr w.shell })
  run_duck :
      (w : World) (rest : List Task) (epoch session_id reason_hr : ℕ) (current now : ℕ)
      (monitors : Map MonitorRuntime) (spawned : Bool)
      → w.shell.queue ≡ device_duck epoch session_id reason_hr ∷ rest
      → Step w (
          after_duck epoch now
            (run_tdr_device_duck current now monitors spawned epoch session_id
              (record w.shell { queue = rest }))
            w)
  run_requalify :
      (w : World) (rest : List Task) (epoch : ℕ) (sessions : List ℕ) (current now : ℕ)
      (monitors : Map MonitorRuntime) (departed : ℕ)
      → w.shell.queue ≡ requalify epoch sessions ∷ rest
      → Step w (record w {
        shell =
            run_tdr_requalify current now monitors departed epoch sessions
              (record w.shell { queue = rest });
      })
  run_deadline :
      (w : World) (rest : List Task) (epoch : ℕ) (sessions : List ℕ) (current : ℕ)
      (monitors : Map MonitorRuntime)
      → w.shell.queue ≡ deadline_depart epoch sessions ∷ rest
      → Step w (record w {
        shell =
            run_tdr_deadline_depart current monitors epoch sessions
              (record w.shell { queue = rest });
      })
  round :
      (w : World) (r : Reading) (p : Poller)
      → w.poller ≡ some p
      → Step w (after_round (poller_round r p w.shell) w)
  recheck :
      (w : World) (sids : List ℕ) (rest : List (List ℕ))
      → w.rechecks ≡ sids ∷ rest
      → Step w (record w { rechecks = rest })

abbrev pub watchers : Option Poller → ℕ
watchers none = 0
watchers (some p) = 1

-- The tasks and pollers of device ducks.
abbrev pub in_flight : World → ℕ
in_flight w = length w.shell.queue + watchers w.poller

abbrev pub Latched : World → Type 0
Latched w = in_flight w ≡ (if w.shell.duck_pending then 1 else 0)

-- `Shell::new`, as far as the device duck reads it.
abbrev pub at_rest : World
at_rest = record {
  shell = record {
    duck_pending = false;
    duck_cycles = 0;
    last_recovery_ms = 0;
    queue = [];
    ducked = [];
    retired = [];
    departures = [];
  };
  poller = none;
  rechecks = [];
}

pub data Reach : World → Type 0 where
  start : Reach at_rest
  later : {w u : World} → Reach w → Step w u → Reach u
