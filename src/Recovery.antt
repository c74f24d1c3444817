-- ===== src/Recovery.antt =====
-- The device duck of crates/luminal-vgd-driver/src/shell/control.rs: what the driver does about a
-- GPU that was reset while its displays stay arrived. Times are in milliseconds.
--
-- What the code reads from elsewhere is an argument: the time, the adapter's epoch, the monitors
-- with the mirrors of their rings, whether a send or a spawn succeeds, what a probe thread says,
-- and how many displays `duck_sessions` departed. Within one task the epoch and the monitors are
-- read once.
pub mod Poller
pub mod Latch
pub mod Departures
use luminal_vgd.Prelude.{
  ℕ, zero, suc, ◌+◌, ◌-◌, ◌%◌, ◌^◌, max, Bool, true, false, not, ◌&&◌, Option, none, some, List, [],
  ◌∷◌, ◌++◌, ltb, leb, ◌==◌, if◌then◌else◌, length,
}
use luminal_vgd.Prelude.Map.{Map, lookup}
use luminal_vgd.Tdr.{RingLive, is_settled}

abbrev pub incident_window_ms : ℕ
incident_window_ms = 600_000

abbrev pub tdr_max_duck_cycles : ℕ
tdr_max_duck_cycles = 3

pub record MonitorRuntime : Type 0 where
  pub live : RingLive
  pub adapter_luid : ℕ

-- The tasks of `EffectsTask` that belong to the device duck.
pub data Task : Type 0 where
  -- with the epoch, the session and the reason
  device_duck : ℕ → ℕ → ℕ → Task
  -- with the epoch and the sessions
  requalify deadline_depart : ℕ → List ℕ → Task

pub record Shell : Type 0 where
  pub duck_pending : Bool
  pub duck_cycles : ℕ
  pub last_recovery_ms : ℕ
  -- the tasks that were sent to the effects worker and are not begun
  pub queue : List Task
  -- the sessions that are parked
  pub ducked : List ℕ
  -- what the rings were marked dead for, and what was handed to `duck_sessions`
  pub retired : List ℕ
  pub departures : List (List ℕ)

unfoldable pub finish_device_duck : Shell → Shell
finish_device_duck s = record s { duck_pending = false }

-- A task that is sent, where the worker is there.
abbrev pub sent_task : Task → Shell → Shell
sent_task task s = record s { queue = s.queue ++ (task ∷ []) }

-- In the device mode, which is the default.
unfoldable pub queue_tdr_duck : Bool → ℕ → ℕ → ℕ → Shell → Shell
queue_tdr_duck sent epoch session_id reason_hr s =
    if s.duck_pending
    then s
    else if sent
    then record (sent_task (device_duck epoch session_id reason_hr) s) { duck_pending = true }
    else s

unfoldable pub abandon_ducked : Shell → Shell
abandon_ducked s = record s { ducked = []; retired = s.retired ++ s.ducked }

unfoldable pub reset_cycles_if_new_incident : ℕ → Shell → Shell
reset_cycles_if_new_incident now_ms s =
    if not (s.last_recovery_ms == 0) && ltb incident_window_ms (now_ms - s.last_recovery_ms)
    then record s { duck_cycles = 0 }
    else s

abbrev pub is_unrecovered : Option MonitorRuntime → Bool
is_unrecovered none = false
is_unrecovered (some rt) = not (is_settled rt.live)

unfoldable pub unrecovered_sessions : Map MonitorRuntime → List ℕ → List ℕ
unrecovered_sessions monitors [] = []
unrecovered_sessions monitors (sid ∷ sids) =
    let rest = unrecovered_sessions monitors sids in
    if is_unrecovered (lookup sid monitors) then sid ∷ rest else rest

-- The sessions on one adapter.
unfoldable pub sessions_on : ℕ → Map MonitorRuntime → List ℕ
sessions_on luid [] = []
sessions_on luid ((sid, rt) ∷ monitors) =
    let rest = sessions_on luid monitors in if rt.adapter_luid == luid then sid ∷ rest else rest

unfoldable pub covered_sessions : ℕ → Map MonitorRuntime → List ℕ
covered_sessions session_id monitors = elim (lookup session_id monitors) [
  | none ↦ []
  | some rt ↦ sessions_on rt.adapter_luid monitors
]

unfoldable pub depart_fallback : (current epoch : ℕ) → Map MonitorRuntime → List ℕ → Shell → Shell
depart_fallback current epoch monitors sessions s =
    let rings = if current == epoch then unrecovered_sessions monitors sessions else [] in
    finish_device_duck (abandon_ducked (record s { retired = s.retired ++ rings }))

abbrev pub recovered_at_ms : ℕ → Shell → Shell
recovered_at_ms now_ms s = record s { last_recovery_ms = max now_ms 1 }

abbrev pub is_empty : List ℕ → Bool
is_empty [] = true
is_empty (x ∷ xs) = false

-- The sessions that a poller is spawned for, if it is.
unfoldable pub run_tdr_device_duck :
    (current now_ms : ℕ)
    → Map MonitorRuntime
    → (spawned : Bool) → (epoch session_id : ℕ) → Shell
    → Option (List ℕ) × Shell
run_tdr_device_duck current now_ms monitors spawned epoch session_id s =
    let s' = reset_cycles_if_new_incident now_ms s in
    let sessions = covered_sessions session_id monitors in
    if not (current == epoch)
    then (none, finish_device_duck s)
    else if is_empty sessions
    then (none, finish_device_duck s')
    else if spawned
    then (some sessions, s')
    else (none, depart_fallback current epoch monitors sessions s')

unfoldable pub run_tdr_requalify :
    (current now_ms : ℕ)
    → Map MonitorRuntime
    → (departed : ℕ) → (epoch : ℕ) → List ℕ
    → Shell
    → Shell
run_tdr_requalify current now_ms monitors departed epoch sessions s =
    let unrecovered = unrecovered_sessions monitors sessions in
    let cycle = (s.duck_cycles + 1) % 2 ^ 32 in
    let s' : Shell = record s { duck_cycles = cycle } in
    let s'' : Shell = record s' { departures = s.departures ++ (unrecovered ∷ []) } in
    if not (current == epoch)
    then finish_device_duck s
    else if is_empty unrecovered
    then finish_device_duck (recovered_at_ms now_ms s)
    else if ltb tdr_max_duck_cycles cycle
    then finish_device_duck s'
    else finish_device_duck (if ltb 0 departed then recovered_at_ms now_ms s'' else s'')

unfoldable pub run_tdr_deadline_depart :
    (current : ℕ) → Map MonitorRuntime → (epoch : ℕ) → List ℕ → Shell → Shell
run_tdr_deadline_depart current monitors epoch sessions s =
    if not (current == epoch)
    then finish_device_duck s
    else depart_fallback current epoch monitors sessions s
