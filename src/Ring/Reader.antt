-- ===== src/Ring/Reader.antt =====
-- The reader's side of crates/luminal-vgd-core/src/ring.rs: `reader_acquire_latest` takes the
-- newest frame.
use luminal_vgd.Prelude.{
  ℕ, ◌≤◌, ◌≡◌, refl, sym, ◌∙◌, subst, some-injective, inl, inr, Option, none, some, Option-cases,
  set,
}
use luminal_vgd.Ring.{reading, RingPolicy, published_slots, newest, reader_acquire_latest}
use luminal_vgd.Ring.Slots.{Holds, in_range, newest-Holds, newest-none}

-- The two outcomes of a request for a frame.
pub data Checkout (r : RingPolicy) : Option (ℕ × ℕ) × RingPolicy → Type 0 where
  takes_newest :
      (i seq : ℕ)
      → Holds r.slots i seq
      → ((j s : ℕ) → Holds r.slots j s → s ≤ seq)
      → Checkout r (some (i, seq), record r { slots = set r.slots i reading })
  nothing_published : ((j s : ℕ) → ¬ Holds r.slots j s) → Checkout r (none, r)

-- `reader_acquire_latest` never panics: it checks out the published frame with the greatest sequence
-- and changes nothing else; it answers with none, and changes nothing, only where no slot is
-- published.
pub reader_acquire_latest-Checkout :
    (r : RingPolicy)
    → (a : Option (ℕ × ℕ) × RingPolicy) × (reader_acquire_latest r ≡ some a) × Checkout r a
unfolding reader_acquire_latest
reader_acquire_latest-Checkout r = elim (Option-cases (newest (published_slots 0 r.slots))) [
  | inl e ↦ (_, rw (e, reader_acquire_latest) refl, nothing_published (newest-none r.slots e))
  | inr ((i, seq), e) ↦
      let (here, most) = newest-Holds r.slots i seq e in
      (_, rw (e, in_range r i here, reader_acquire_latest) refl, takes_newest i seq here most)
]

-- What an answer is.
pub checked_out :
    (r : RingPolicy) {a : Option (ℕ × ℕ) × RingPolicy}
    → reader_acquire_latest r ≡ some a
    → Checkout r a
checked_out r {a} e =
    let (b, f, w) = reader_acquire_latest-Checkout r in
    subst (λ x. Checkout r x) (some-injective (sym f ∙ e)) w
