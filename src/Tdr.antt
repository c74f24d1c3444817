-- ===== src/Tdr.antt =====
-- crates/luminal-vgd-driver/src/tdr.rs: what a recovering driver still has to watch. The atomics of
-- `RingLive` are a record, and each store of them one step.
pub mod Watching
use luminal_vgd.Prelude.{ℕ, ◌+◌, ◌%◌, ◌^◌, Bool, true, false, not, ◌&&◌, ◌||◌, ◌==◌, if◌then◌else◌}
use luminal_vgd.Proto.RingState

pub record RingLive : Type 0 where
  pub transport : Bool
  pub state : ℕ
  pub worker_live : Bool
  pub live_generation : ℕ

unfoldable pub new : Bool → RingLive
new transport_present = record {
  transport = transport_present;
  state = if transport_present then RingState.rebuilding else RingState.dead;
  worker_live = false;
  live_generation = 0;
}

unfoldable pub publish_state : ℕ → RingLive → RingLive
publish_state state live = record live { state = state }

-- With the generation it answers.
unfoldable pub publish_worker_started : RingLive → ℕ × RingLive
publish_worker_started live =
    let generation = (live.live_generation + 1) % 2 ^ 64 in
    (generation, record live { live_generation = generation; worker_live = true })

unfoldable pub publish_first_frame : RingLive → RingLive
publish_first_frame live = record live { state = RingState.active }

unfoldable pub publish_worker_exit : RingLive → RingLive
publish_worker_exit live = record live { worker_live = false }

unfoldable pub publishing : RingLive → Bool
publishing live = live.worker_live && live.state == RingState.active

-- `RingLive::settled`
unfoldable pub is_settled : RingLive → Bool
is_settled live = not live.transport || not (live.state == RingState.rebuilding)

pub data RingTick : Type 0 where
  rebuilding settled heartbeat_blocked : RingTick

unfoldable pub is_pending : RingTick → Bool
is_pending rebuilding = true
is_pending settled = false
is_pending heartbeat_blocked = true

unfoldable pub ring_tick : RingLive → Bool → RingTick
ring_tick live lock_available =
    if is_settled live
    then settled
    else if not lock_available
    then heartbeat_blocked
    else rebuilding
