-- ===== src/Tests/Rings.antt =====
-- Runs of a ring of two slots, for crates/luminal-vgd-core/src/ring.rs.
use luminal_vgd.Prelude.{
  ℕ, ◌+◌, ◌^◌, ◌<◌, ◌≡◌, refl, Option, some, List, [], ◌∷◌, arith, length, get_elem?,
}
use luminal_vgd.Ring.{
  RingPolicy, WriterSlot, new, writer_acquire, publish, reader_acquire_latest, position_free,
  published_slots, oldest, oldest_from, newest, newest_from, overwrite, reading, published,
}
use luminal_vgd.Ring.Invariant.{new-IsValid}
use luminal_vgd.Ring.Writer.{Acquires, writer_acquire-Acquires}
use luminal_vgd.Ring.Reader.{Checkout, reader_acquire_latest-Checkout}
use luminal_vgd.Ring.Runs.{
  Call, acquire, take_latest, publishes, perform, run, Consecutive, run-Consecutive,
}
use luminal_vgd.Ring.Held.{run_keeps_held}

abbrev two_slots : RingPolicy
two_slots = new 2

-- Three frames into two slots: the third takes the slot of the first.
abbrev calls : List Call
calls = acquire ∷ publishes 0 ∷ acquire ∷ publishes 1 ∷ acquire ∷ publishes 0 ∷ take_latest ∷ []

-- The ring after the run.
abbrev full_ring : RingPolicy
full_ring = record {
  slots = reading ∷ published 2 ∷ [];
  sequence = 4;
  generation = 1;
  frames_published = 3;
  frames_dropped = 1;
}

ran : run two_slots calls ≡ some (1 ∷ 2 ∷ 3 ∷ [], full_ring)
unfolding new run perform writer_acquire position_free published_slots oldest oldest_from newest
    newest_from overwrite publish reader_acquire_latest
ran = refl

room : two_slots.sequence + length calls < 2 ^ 64
unfolding new
room = omega arith

run-Consecutive_example : Consecutive two_slots (1 ∷ 2 ∷ 3 ∷ []) full_ring
run-Consecutive_example =
    run-Consecutive two_slots calls (1 ∷ 2 ∷ 3 ∷ []) full_ring (new-IsValid 2) room ran

-- The host holds slot 0 while the writer publishes two more frames.
abbrev more : List Call
more = acquire ∷ publishes 1 ∷ acquire ∷ publishes 1 ∷ []

abbrev later_ring : RingPolicy
later_ring = record full_ring {
  slots = reading ∷ published 5 ∷ [];
  sequence = 6;
  frames_published = 5;
  frames_dropped = 3;
}

ran_more : run full_ring more ≡ some (4 ∷ 5 ∷ [], later_ring)
unfolding run perform writer_acquire position_free published_slots oldest oldest_from overwrite
    publish
ran_more = refl

run_keeps_held_example : get_elem? later_ring.slots 0 ≡ some reading
run_keeps_held_example =
    run_keeps_held 0 full_ring more (4 ∷ 5 ∷ []) later_ring refl
      (tt, ((λ e. omega arith), (tt, ((λ e. omega arith), tt)))) ran_more

writer_acquire-Acquires_example :
    (a : Option WriterSlot × RingPolicy) × (writer_acquire full_ring ≡ some a)
    × Acquires full_ring a
writer_acquire-Acquires_example = writer_acquire-Acquires full_ring

reader_acquire_latest-Checkout_example :
    (a : Option (ℕ × ℕ) × RingPolicy) × (reader_acquire_latest full_ring ≡ some a)
    × Checkout full_ring a
reader_acquire_latest-Checkout_example = reader_acquire_latest-Checkout full_ring
