-- ===== src/Ring.antt =====
-- crates/luminal-vgd-core/src/ring.rs: the drop-oldest slot policy of the frame ring. Counters are
-- `u64` and the generation is `u32`; they wrap as in a release build.
pub mod Slots
pub mod Invariant
pub mod Writer
pub mod Reader
pub mod Runs
pub mod Held
pub mod Totality
use luminal_vgd.Prelude.{
  ℕ, zero, suc, ◌+◌, ◌%◌, ◌^◌, ◌≡◌, refl, Bool, true, false, Option, none, some, List, [], ◌∷◌, ltb,
  leb, ◌==◌, if◌then◌else◌, min, max, length, get_elem?, set, replicate, map,
}
use luminal_vgd.Proto.{abi_max_ring_slots}
use luminal_vgd.Proto.SlotState

pub data Slot : Type 0 where
  free writing reading : Slot
  published : ℕ → Slot

pub record WriterSlot : Type 0 where
  pub index : ℕ
  pub overwrote : Option ℕ

pub record RingPolicy : Type 0 where
  pub slots : List Slot
  pub sequence : ℕ
  pub generation : ℕ
  pub frames_published : ℕ
  pub frames_dropped : ℕ

abbrev pub next64 : ℕ → ℕ
next64 n = (n + 1) % 2 ^ 64

abbrev pub next32 : ℕ → ℕ
next32 n = (n + 1) % 2 ^ 32

-- `clamp(2, ABI_MAX_RING_SLOTS)`
unfoldable pub new : ℕ → RingPolicy
new slot_count = record {
  slots = replicate (min (max slot_count 2) abi_max_ring_slots) free;
  sequence = 1;
  generation = 1;
  frames_published = 0;
  frames_dropped = 0;
}

unfoldable pub slot_count : RingPolicy → ℕ
slot_count r = length r.slots

-- Indexing out of range panics, which is `none` here.
unfoldable pub slot : RingPolicy → ℕ → Option Slot
slot r index = get_elem? r.slots index

unfoldable pub next_sequence : RingPolicy → ℕ
next_sequence r = r.sequence

abbrev pub is_free : Slot → Bool
is_free free = true
is_free _ = false

-- `iter().position(|s| *s == Slot::Free)`, counting from `i`
unfoldable pub position_free : ℕ → List Slot → Option ℕ
position_free i [] = none
position_free i (s ∷ slots) =
    let later = position_free (i + 1) slots in if is_free s then some i else later

-- `enumerate().filter_map(..)`: the published slots with their indices, counting from `i`
unfoldable pub published_slots : ℕ → List Slot → List (ℕ × ℕ)
published_slots i [] = []
published_slots i (published seq ∷ slots) = (i, seq) ∷ published_slots (i + 1) slots
published_slots i (_ ∷ slots) = published_slots (i + 1) slots

-- `min_by_key` keeps the first of several least elements.
unfoldable pub oldest_from : ℕ × ℕ → List (ℕ × ℕ) → ℕ × ℕ
oldest_from best [] = best
oldest_from best (c ∷ rest) = oldest_from (if ltb c.1 best.1 then c else best) rest

unfoldable pub oldest : List (ℕ × ℕ) → Option (ℕ × ℕ)
oldest [] = none
oldest (c ∷ rest) = some (oldest_from c rest)

-- `max_by_key` keeps the last of several greatest elements.
unfoldable pub newest_from : ℕ × ℕ → List (ℕ × ℕ) → ℕ × ℕ
newest_from best [] = best
newest_from best (c ∷ rest) = newest_from (if ltb c.1 best.1 then best else c) rest

unfoldable pub newest : List (ℕ × ℕ) → Option (ℕ × ℕ)
newest [] = none
newest (c ∷ rest) = some (newest_from c rest)

-- Indexing a slot out of range panics, which is `none` here.
abbrev pub in_bounds {ℓ} : {A : Type ℓ} → RingPolicy → ℕ → A → Option A
in_bounds r index a = if ltb index (length r.slots) then some a else none

-- The second half of `writer_acquire`, where no slot is free.
unfoldable pub overwrite : RingPolicy → Option (ℕ × ℕ) → Option (Option WriterSlot × RingPolicy)
overwrite r (some (i, seq)) = in_bounds r i (
  some (record { index = i; overwrote = some seq }),
  record r { slots = set r.slots i writing; frames_dropped = next64 r.frames_dropped },
)
overwrite r none = some (none, record r { frames_dropped = next64 r.frames_dropped })

unfoldable pub writer_acquire : RingPolicy → Option (Option WriterSlot × RingPolicy)
writer_acquire r = elim (position_free 0 r.slots) [
  | some i ↦
      in_bounds r i
        (some (record { index = i; overwrote = none }), record r { slots = set r.slots i writing })
  | none ↦ overwrite r (oldest (published_slots 0 r.slots))
]

unfoldable pub writer_abort : RingPolicy → ℕ → Option RingPolicy
writer_abort r index =
    in_bounds r index
      (record r { slots = set r.slots index free; frames_dropped = next64 r.frames_dropped })

unfoldable pub publish : RingPolicy → ℕ → Option (ℕ × RingPolicy)
publish r index =
    let seq = r.sequence in
    in_bounds r index (
      seq,
      record r {
        sequence = next64 r.sequence;
        frames_published = next64 r.frames_published;
        slots = set r.slots index (published seq);
      },
    )

unfoldable pub reader_acquire_latest : RingPolicy → Option (Option (ℕ × ℕ) × RingPolicy)
reader_acquire_latest r = elim (newest (published_slots 0 r.slots)) [
  | none ↦ some (none, r)
  | some c ↦ in_bounds r c.0 (some c, record r { slots = set r.slots c.0 reading })
]

unfoldable pub reader_release : RingPolicy → ℕ → Option RingPolicy
reader_release r index = in_bounds r index (record r { slots = set r.slots index free })

-- `match (self.slots[index], shared_state)`
unfoldable pub reconciled : Slot → ℕ → Slot
reconciled (published seq) s =
    if s == SlotState.reading then reading else if s == SlotState.free then free else published seq
reconciled reading s = if s == SlotState.free then free else reading
reconciled free s = if s == SlotState.reading then reading else free
reconciled writing s = writing

unfoldable pub reconcile_shared : RingPolicy → ℕ → ℕ → Option RingPolicy
reconcile_shared r index shared_state = elim (get_elem? r.slots index) [
  | none ↦ none
  | some s ↦ some (record r { slots = set r.slots index (reconciled s shared_state) })
]

unfoldable pub rebuild : RingPolicy → ℕ × RingPolicy
rebuild r =
    let generation = next32 r.generation in
    (generation, record r { slots = map (λ _. free) r.slots; generation = generation })
