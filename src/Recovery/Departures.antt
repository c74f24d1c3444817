-- ===== src/Recovery/Departures.antt =====
-- Which displays the device duck of crates/luminal-vgd-driver/src/shell/control.rs takes away, and
-- when.
use luminal_vgd.Prelude.{
  ℕ, ◌-◌, ◌^◌, ◌<◌, Bool, true, not, ◌&&◌, List, [], ◌∷◌, ◌++◌, In, ◌≡◌, ◌↔◌, inl, inr, Bool-cases,
  ltb, ◌==◌, if◌then◌else◌, arith,
}
use luminal_vgd.Prelude.Map.{Map, lookup}
use luminal_vgd.Recovery.{
  MonitorRuntime, Shell, finish_device_duck, is_unrecovered, unrecovered_sessions, is_empty,
  run_tdr_device_duck, run_tdr_requalify, run_tdr_deadline_depart, depart_fallback, abandon_ducked,
  reset_cycles_if_new_incident, tdr_max_duck_cycles,
}
use luminal_vgd.Recovery.Poller.{Poller, Reading, poller_round, give_over}

-- A session is to be departed if it is covered and its mirror has not settled.
unrecovered_iff :
    (monitors : Map MonitorRuntime) (sids : List ℕ) (sid : ℕ)
    → In sid (unrecovered_sessions monitors sids)
      ↔ (In sid sids × (is_unrecovered (lookup sid monitors) ≡ true))
unfolding unrecovered_sessions
unrecovered_iff monitors [] sid = (λ m. absurd m, λ h. absurd h.0)
unrecovered_iff monitors (k ∷ sids) sid =
    let rest = unrecovered_iff monitors sids sid in
    elim (Bool-cases (is_unrecovered (lookup k monitors))) [
      | inl failing ↦ rw failing (
        (λ m. elim m [
          | inl e ↦ (inl e, rw e failing)
          | inr later ↦ (inr (rest.0 later).0, (rest.0 later).1)
        ]),
        (λ h. elim h.0 [ inl e ↦ inl e | inr later ↦ inr (rest.1 (later, h.1)) ]),
      )
      | inr fine ↦ rw fine (
        (λ m. (inr (rest.0 m).0, (rest.0 m).1)),
        (λ h. elim h.0 [ inl e ↦ let other = rw e at h.1 in cc | inr later ↦ rest.1 (later, h.1) ]),
      )
    ]

requalify-departures :
    (current now : ℕ) (monitors : Map MonitorRuntime) (departed epoch : ℕ) (sessions : List ℕ)
    (s : Shell)
    → s.duck_cycles < 2 ^ 32 - 1
    → (run_tdr_requalify current now monitors departed epoch sessions s).departures ≡ (
        if current == epoch
          && not (is_empty (unrecovered_sessions monitors sessions))
          && ltb s.duck_cycles tdr_max_duck_cycles
        then s.departures ++ (unrecovered_sessions monitors sessions ∷ [])
        else s.departures)
unfolding run_tdr_requalify finish_device_duck
requalify-departures current now monitors departed epoch sessions s bounded = ground arith

duck-departures :
    (current now : ℕ) (monitors : Map MonitorRuntime) (spawned : Bool) (epoch sid : ℕ) (s : Shell)
    → (run_tdr_device_duck current now monitors spawned epoch sid s).1.departures ≡ s.departures
unfolding run_tdr_device_duck finish_device_duck depart_fallback abandon_ducked
    reset_cycles_if_new_incident
duck-departures current now monitors spawned epoch sid s = ground arith

deadline-departures :
    (current : ℕ) (monitors : Map MonitorRuntime) (epoch : ℕ) (sessions : List ℕ) (s : Shell)
    → (run_tdr_deadline_depart current monitors epoch sessions s).departures ≡ s.departures
unfolding run_tdr_deadline_depart finish_device_duck depart_fallback abandon_ducked
deadline-departures current monitors epoch sessions s = ground arith

round-departures :
    (r : Reading) (p : Poller) (s : Shell) → (poller_round r p s).1.departures ≡ s.departures
unfolding poller_round give_over finish_device_duck
round-departures r p s = ground arith

-- Only a requalify takes displays away, and it takes those of its sessions that are still there
-- and whose mirror has not settled, when there is one, the adapter is the one that the duck began
-- with, and fewer than three requalifies were made in the incident. The first task of a duck, the
-- deadline and the rounds of the poller take none. The count of cycles does not wrap.
pub departures_unrecovered :
    (current now : ℕ) (monitors : Map MonitorRuntime) (departed epoch : ℕ) (sessions : List ℕ)
    (s : Shell)
    → s.duck_cycles < 2 ^ 32 - 1
    → let unrecovered = unrecovered_sessions monitors sessions in
      ((run_tdr_requalify current now monitors departed epoch sessions s).departures ≡ (
        if current == epoch && not (is_empty unrecovered) && ltb s.duck_cycles tdr_max_duck_cycles
        then s.departures ++ (unrecovered ∷ [])
        else s.departures))
      × ((sid : ℕ)
          → In sid unrecovered ↔ (In sid sessions × (is_unrecovered (lookup sid monitors) ≡ true)))
      × ((spawned : Bool) (sid : ℕ)
          → (run_tdr_device_duck current now monitors spawned epoch sid s).1.departures
            ≡ s.departures)
      × ((run_tdr_deadline_depart current monitors epoch sessions s).departures ≡ s.departures)
      × ((r : Reading) (p : Poller) → (poller_round r p s).1.departures ≡ s.departures)
departures_unrecovered current now monitors departed epoch sessions s bounded = (
  requalify-departures current now monitors departed epoch sessions s bounded,
  (λ sid. unrecovered_iff monitors sessions sid),
  (λ spawned sid. duck-departures current now monitors spawned epoch sid s),
  deadline-departures current monitors epoch sessions s,
  (λ r p. round-departures r p s),
)
