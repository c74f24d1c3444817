-- ===== src/Host/RingWatch.antt =====
-- crates/luminal-vgd-host/src/ring_watch.rs: what a sampled ring header says.
pub mod Verdicts
use luminal_vgd.Prelude.{ℕ, ◌-◌, ◌*◌, ◌/◌, ◌%◌, ◌^◌, not, ◌||◌, ltb, ◌==◌, if◌then◌else◌}
use luminal_vgd.Proto.RingState
use luminal_vgd.Proto.Sections.{RingHeader, ring_magic, ring_heartbeat_stale_ms}
use luminal_vgd.Host.Controller.{RingSignal, active, rebuilding, heartbeat_stale, dead}

-- `match header.state`
unfoldable pub signal_of : RingHeader → RingSignal
signal_of header =
    if header.state == RingState.active
    then active header.ring_generation
    else if header.state == RingState.rebuilding
    then rebuilding
    else if header.state == RingState.dead
    then dead
    else heartbeat_stale

abbrev pub stale_ticks : RingHeader → ℕ
stale_ticks header = ring_heartbeat_stale_ms * header.qpc_frequency % 2 ^ 64 / 1000

unfoldable pub classify : RingHeader → ℕ → RingSignal
classify header now_qpc =
    if not (header.magic == ring_magic) || header.qpc_frequency == 0
    then heartbeat_stale
    else if ltb (stale_ticks header) (now_qpc - header.driver_heartbeat_qpc)
    then heartbeat_stale
    else signal_of header
