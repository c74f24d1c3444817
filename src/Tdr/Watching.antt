-- ===== src/Tdr/Watching.antt =====
-- When the recovery poller of crates/luminal-vgd-driver/src/tdr.rs stops watching a ring.
use luminal_vgd.Prelude.{
  ℕ, Bool, true, false, not, ◌==◌, if◌then◌else◌, ◌≡◌, ◌≢◌, ◌↔◌, refl, ◌∙◌, inl, inr, arith,
  Bool-cases,
}
use luminal_vgd.Proto.RingState
use luminal_vgd.Tdr.{
  RingLive, new, publish_state, publish_worker_started, publish_first_frame, publish_worker_exit,
  publishing, is_settled, is_pending, ring_tick, heartbeat_blocked, rebuilding,
}

-- The stores of `RingLive`, as the steps of a frame worker and of the section's owner.
pub data Store : RingLive → RingLive → Type 0 where
  state_published : (live : RingLive) (state : ℕ) → Store live (publish_state state live)
  worker_started : (live : RingLive) → Store live (publish_worker_started live).1
  first_frame : (live : RingLive) → Store live (publish_first_frame live)
  worker_exited : (live : RingLive) → Store live (publish_worker_exit live)

pub data Stores : RingLive → RingLive → Type 0 where
  done : (live : RingLive) → Stores live live
  after : (a b c : RingLive) → Stores a b → Store b c → Stores a c

-- A ring is watched exactly while it has a transport and its state is rebuilding, whether the lock
-- was free or not.
pub ring_tick-pending_iff :
    (live : RingLive) (lock_available : Bool)
    → (is_pending (ring_tick live lock_available) ≡ true)
      ↔ (live.transport ≡ true) × (live.state ≡ RingState.rebuilding)
unfolding ring_tick is_settled is_pending
ring_tick-pending_iff live lock_available = elim (Bool-cases live.transport) [
  | inr no_ring ↦ (λ e. let never = rw (no_ring, ring_tick, is_settled) at e in cc, λ h. cc)
  | inl ring ↦ elim (Bool-cases (live.state == RingState.rebuilding)) [
    | inr other ↦ (
      λ e. let never = rw (ring, other, ring_tick, is_settled) at e in cc,
      λ h. let same : (live.state == RingState.rebuilding) ≡ true = ground arith in cc,
    )
    | inl waiting ↦ (
      λ e. (ring, ground arith),
      λ h. rw (ring, waiting, ring_tick, is_settled) (either lock_available),
    )
  ]
]
  where
    either : (b : Bool) → is_pending (if not b then heartbeat_blocked else rebuilding) ≡ true
    either true = refl
    either false = refl

-- A display that publishes is never watched: the mutex its worker holds does not matter.
pub publishing-not_pending :
    (live : RingLive) (lock_available : Bool)
    → publishing live ≡ true
    → is_pending (ring_tick live lock_available) ≡ false
unfolding publishing
publishing-not_pending live lock_available p =
    elim (Bool-cases (is_pending (ring_tick live lock_available))) [
      | inr quiet ↦ quiet
      | inl watched ↦
          let (ring, waiting) = (ring_tick-pending_iff live lock_available).0 watched in
          absurd (idle live p waiting)
    ]
  where
    idle : (live : RingLive) → publishing live ≡ true → live.state ≢ RingState.rebuilding
    idle live p q = elim (Bool-cases live.worker_live) [
      | inr gone ↦ let never = rw (gone, publishing) at p in cc
      | inl here ↦
          let active : (live.state == RingState.active) ≡ true = rw (here, publishing) at p in
          ground arith
    ]

run-transport : (a b : RingLive) → Stores a b → b.transport ≡ a.transport
unfolding publish_state publish_worker_started publish_first_frame publish_worker_exit
run-transport a b (done c) = refl
run-transport a b (after c d e run s) = one d e s ∙ run-transport c d run
  where
    one : (d e : RingLive) → Store d e → e.transport ≡ d.transport
    one d e (state_published live state) = refl
    one d e (worker_started live) = refl
    one d e (first_frame live) = refl
    one d e (worker_exited live) = refl

-- Whatever its worker and its owner store afterwards, a ring that was created without a transport
-- is never watched.
pub run-without_transport :
    (live : RingLive) (lock_available : Bool)
    → Stores (new false) live
    → is_pending (ring_tick live lock_available) ≡ false
unfolding new ring_tick is_settled is_pending
run-without_transport live lock_available run =
    rw (run-transport (new false) live run, ring_tick, is_settled) refl
