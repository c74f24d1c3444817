-- ===== src/Ring/Writer.antt =====
-- The writer's side of crates/luminal-vgd-core/src/ring.rs: which slot `writer_acquire` takes.
use luminal_vgd.Prelude.{
  ℕ, ◌≤◌, ◌≡◌, refl, sym, ◌∙◌, some-injective, subst, ◌≢◌, inl, inr, Option, none, some, arith,
  Option-cases, get_elem?, set,
}
use luminal_vgd.Ring.{
  free, writing, WriterSlot, RingPolicy, next64, position_free, published_slots, oldest, overwrite,
  writer_acquire,
}
use luminal_vgd.Ring.Slots.{
  Holds, in_range, position_free-some, position_free-none, oldest-Holds, oldest-none,
}

-- The three outcomes that the ring's policy names.
pub data Acquires (r : RingPolicy) : Option WriterSlot × RingPolicy → Type 0 where
  -- a free slot is taken, and no frame is lost
  takes_free :
      (i : ℕ)
      → get_elem? r.slots i ≡ some free
      → Acquires r (
        some (record { index = i; overwrote = none }),
        record r { slots = set r.slots i writing },
      )
  -- no slot is free: the oldest frame is overwritten and counted as dropped
  overwrites :
      (i seq : ℕ)
      → ((j : ℕ) → get_elem? r.slots j ≢ some free)
      → Holds r.slots i seq
      → ((j s : ℕ) → Holds r.slots j s → seq ≤ s)
      → Acquires r (
        some (record { index = i; overwrote = some seq }),
        record r { slots = set r.slots i writing; frames_dropped = next64 r.frames_dropped },
      )
  -- no slot is free or holds a frame: the new frame is dropped, and no slot changes
  drops :
      ((j : ℕ) → get_elem? r.slots j ≢ some free)
      → ((j s : ℕ) → ¬ Holds r.slots j s)
      → Acquires r (none, record r { frames_dropped = next64 r.frames_dropped })

-- `writer_acquire` never panics: it answers with a free slot where there is one, otherwise with the
-- slot of the oldest published frame, and with no slot only where none is free or published.
pub writer_acquire-Acquires :
    (r : RingPolicy)
    → (a : Option WriterSlot × RingPolicy) × (writer_acquire r ≡ some a) × Acquires r a
unfolding writer_acquire overwrite
writer_acquire-Acquires r = elim (Option-cases (position_free 0 r.slots)) [
  | inl busy ↦
      let no_free = λ (j : ℕ). position_free-none 0 r.slots j busy in
      elim (Option-cases (oldest (published_slots 0 r.slots))) [
        | inl empty ↦ (
          _,
          rw (busy, empty, writer_acquire, overwrite) refl,
          drops no_free (oldest-none r.slots empty),
        )
        | inr ((i, seq), e) ↦
            let (here, least) = oldest-Holds r.slots i seq e in
            (
              _,
              rw (busy, e, in_range r i here, writer_acquire, overwrite) refl,
              overwrites i seq no_free here least,
            )
      ]
  | inr (i, e) ↦
      let (d, p, q) = position_free-some 0 r.slots i e in
      let same : d ≡ i = omega arith in
      let here : get_elem? r.slots i ≡ some free =
        subst (λ k. get_elem? r.slots k ≡ some free) same q in
      (_, rw (e, in_range r i here, writer_acquire) refl, takes_free i here)
]

-- What an answer is.
pub acquired :
    (r : RingPolicy) {a : Option WriterSlot × RingPolicy} → writer_acquire r ≡ some a → Acquires r a
acquired r {a} e =
    let (b, f, w) = writer_acquire-Acquires r in
    subst (λ x. Acquires r x) (some-injective (sym f ∙ e)) w
