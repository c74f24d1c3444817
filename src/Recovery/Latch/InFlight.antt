-- ===== src/Recovery/Latch/InFlight.antt =====
-- What is in flight while the latch of crates/luminal-vgd-driver/src/shell/control.rs is held.
use luminal_vgd.Prelude.{
  ℕ, ◌+◌, Bool, true, false, not, leb, none, some, List, [], ◌∷◌, length, length-append, ◌≡◌, refl,
  ◌==◌, if◌then◌else◌, arith,
}
use luminal_vgd.Prelude.Map.{Map}
use luminal_vgd.Recovery.{
  MonitorRuntime, Task, device_duck, requalify, deadline_depart, Shell, finish_device_duck,
  queue_tdr_duck, abandon_ducked, reset_cycles_if_new_incident, depart_fallback,
  run_tdr_device_duck, run_tdr_requalify, run_tdr_deadline_depart, sent_task, recovered_at_ms,
  covered_sessions, unrecovered_sessions,
}
use luminal_vgd.Dispatch.Cases.{if-arms}
use luminal_vgd.Recovery.Poller.{
  grace_over, tdr_recovery_budget_ms, covered_rings, count_pending, sessions_of, Poller, Reading,
  Next, ended, rechecking, poller_round, give_over, probe_step,
}
use luminal_vgd.Recovery.Latch.{
  World, after_duck, after_round, Step, arm, run_duck, run_requalify, run_deadline, round, recheck,
  in_flight, Latched, Reach, start, later,
}

arm-Latched :
    (w : World) (sent : Bool) (epoch session_id reason_hr : ℕ)
    → Latched w
    → Latched (record w { shell = queue_tdr_duck sent epoch session_id reason_hr w.shell })
unfolding queue_tdr_duck
arm-Latched w sent epoch session_id reason_hr l =
    ground (arith, length-append w.shell.queue (device_duck epoch session_id reason_hr ∷ []))

-- The head of the queue is all that is in flight.
head-alone :
    (w : World) (task : Task) (rest : List Task)
    → w.shell.queue ≡ task ∷ rest
    → Latched w
    → (rest ≡ []) × (w.poller ≡ none) × (w.shell.duck_pending ≡ true)
head-alone w task [] q l = (refl, ground arith, ground arith)
head-alone w task (t ∷ rest) q l = absurd (ground arith)

reset-same :
    (now : ℕ) (s : Shell)
    → ((reset_cycles_if_new_incident now s).queue ≡ s.queue)
      × ((reset_cycles_if_new_incident now s).duck_pending ≡ s.duck_pending)
unfolding reset_cycles_if_new_incident
reset-same now s = ground arith

depart-frees :
    (current epoch : ℕ) (monitors : Map MonitorRuntime) (sessions : List ℕ) (s : Shell)
    → ((depart_fallback current epoch monitors sessions s).queue ≡ s.queue)
      × ((depart_fallback current epoch monitors sessions s).duck_pending ≡ false)
unfolding depart_fallback finish_device_duck abandon_ducked
depart-frees current epoch monitors sessions s = (refl, refl)

run_duck-Latched :
    (w : World) (current now : ℕ) (monitors : Map MonitorRuntime) (spawned : Bool) (epoch sid : ℕ)
    (s : Shell)
    → s.queue ≡ []
    → s.duck_pending ≡ true
    → Latched
        (after_duck epoch now (run_tdr_device_duck current now monitors spawned epoch sid s) w)
unfolding run_tdr_device_duck finish_device_duck
run_duck-Latched w current now monitors spawned epoch sid s empty held =
    let s' = reset_cycles_if_new_incident now s in
    ground (
      arith,
      reset-same now s,
      depart-frees current epoch monitors (covered_sessions sid monitors) s',
    )

-- Where a poller is all that is in flight.
module _ (w : World) (empty : w.shell.queue ≡ []) (held : w.shell.duck_pending ≡ true) where
  abbrev Keeps : Next × Shell → Type 0
  Keeps o = Latched (after_round o w)

  frees : Keeps (ended, finish_device_duck w.shell)
  unfolding finish_device_duck
  frees = ground arith

  frees_recovered :
      (now : ℕ) (sids : List ℕ)
      → Keeps (rechecking sids, finish_device_duck (recovered_at_ms now w.shell))
  unfolding finish_device_duck
  frees_recovered now sids = ground arith

  hands_over :
      (task : Task) (sent : Bool)
      → Keeps
          (if sent then (ended, sent_task task w.shell) else (ended, finish_device_duck w.shell))
  hands_over task sent =
      if-arms Keeps sent _ _ (λ _. ground (arith, length-append w.shell.queue (task ∷ []))) frees

  gives_over : (r : Reading) (p : Poller) → Keeps (give_over r p w.shell)
  unfolding give_over
  gives_over r p =
      let unrecovered = unrecovered_sessions r.later_monitors p.sessions in
      if-arms Keeps (grace_over r.now p.recovered_at) _ _
        (λ _. hands_over (requalify p.epoch unrecovered) r.sent)
        (if-arms Keeps (leb (p.started + tdr_recovery_budget_ms) r.now) _ _
          (λ _. hands_over (deadline_depart p.epoch unrecovered) r.sent) (ground arith))

  round-Keeps : (r : Reading) (p : Poller) → Keeps (poller_round r p w.shell)
  unfolding poller_round
  round-Keeps r p =
      let rings = covered_rings r.monitors p.sessions in
      if-arms Keeps (not (r.current_epoch == p.epoch)) _ _ (λ _. frees)
        (if-arms Keeps (leb (length rings) 0) _ _ (λ _. frees)
          (if-arms Keeps (count_pending r.lock_available rings == 0) _ _
            (λ _. frees_recovered r.now (sessions_of rings)) (gives_over r (probe_step r p))))

nil_of_length : (tasks : List Task) → length tasks ≡ 0 → tasks ≡ []
nil_of_length [] e = refl
nil_of_length (t ∷ tasks) e = absurd (omega arith)

requalify-frees :
    (current now : ℕ) (monitors : Map MonitorRuntime) (departed epoch : ℕ) (sessions : List ℕ)
    (s : Shell)
    → ((run_tdr_requalify current now monitors departed epoch sessions s).queue ≡ s.queue)
      × ((run_tdr_requalify current now monitors departed epoch sessions s).duck_pending ≡ false)
unfolding run_tdr_requalify finish_device_duck
requalify-frees current now monitors departed epoch sessions s = ground arith

deadline-frees :
    (current : ℕ) (monitors : Map MonitorRuntime) (epoch : ℕ) (sessions : List ℕ) (s : Shell)
    → ((run_tdr_deadline_depart current monitors epoch sessions s).queue ≡ s.queue)
      × ((run_tdr_deadline_depart current monitors epoch sessions s).duck_pending ≡ false)
unfolding run_tdr_deadline_depart finish_device_duck
deadline-frees current monitors epoch sessions s =
    ground (arith, depart-frees current epoch monitors sessions s)

-- The poller is all that is in flight.
watching-alone :
    (w : World) (p : Poller)
    → w.poller ≡ some p
    → Latched w
    → (w.shell.queue ≡ []) × (w.shell.duck_pending ≡ true)
watching-alone w p q l = (nil_of_length w.shell.queue (ground (arith, q)), ground (arith, q))

Step-Latched : {w u : World} → Step w u → Latched w → Latched u
Step-Latched (arm w sent epoch sid hr) l = arm-Latched w sent epoch sid hr l
Step-Latched (run_duck w rest epoch sid hr current now monitors spawned q) l =
    let (empty, _, held) = head-alone w _ rest q l in
    run_duck-Latched w current now monitors spawned epoch sid (record w.shell { queue = rest })
      empty held
Step-Latched (run_requalify w rest epoch sessions current now monitors departed q) l =
    let (empty, alone, held) = head-alone w _ rest q l in
    ground (
      arith,
      requalify-frees current now monitors departed epoch sessions
          (record w.shell { queue = rest }),
    )
Step-Latched (run_deadline w rest epoch sessions current monitors q) l =
    let (empty, alone, held) = head-alone w _ rest q l in
    ground (arith, deadline-frees current monitors epoch sessions (record w.shell { queue = rest }))
Step-Latched (round w r p q) l =
    let (empty, held) = watching-alone w p q l in round-Keeps w empty held r p
Step-Latched (recheck w sids rest q) l = l

-- In whatever order frame workers fail, tasks run, pollers go round, and sends and spawns succeed
-- or fail: the latch is held exactly while one task or one poller of a device duck is in flight. So
-- two device ducks are never in flight together, and no way through one leaves the latch held.
pub Reach-Latched : {w : World} → Reach w → in_flight w ≡ (if w.shell.duck_pending then 1 else 0)
Reach-Latched start = refl
Reach-Latched (later r s) = Step-Latched s (Reach-Latched r)
