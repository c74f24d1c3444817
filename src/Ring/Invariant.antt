-- ===== src/Ring/Invariant.antt =====
-- The invariant of `RingPolicy` in crates/luminal-vgd-core/src/ring.rs, kept by every operation.
use luminal_vgd.Prelude.{
  ℕ, suc, ◌+◌, ◌^◌, ◌≤◌, ◌<◌, ◌≡◌, refl, subst, ap, ◌⊎◌, inl, inr, Option, some, arith,
  Option-cases, length, length-set, length-replicate, get_elem?, get_elem?-set, set, replicate, map,
  List, [], ◌∷◌, zero, min, max,
}
use luminal_vgd.Ring.{
  Slot, free, writing, reading, published, WriterSlot, RingPolicy, new, writer_acquire,
  writer_abort, publish, reader_acquire_latest, reader_release, reconciled, reconcile_shared,
  rebuild, next64,
}
use luminal_vgd.Ring.Slots.{Holds}
use luminal_vgd.Ring.Writer.{Acquires, takes_free, overwrites, drops, acquired}
use luminal_vgd.Ring.Reader.{Checkout, takes_newest, nothing_published, checked_out}

-- The frames in the slots: each has a sequence that was issued, and no two have the same.
pub record AreIssued (slots : List Slot) (next : ℕ) : Type 0 where
  pub issued : (i s : ℕ) → Holds slots i s → s < next
  pub apart : (i j s : ℕ) → Holds slots i s → Holds slots j s → i ≡ j

pub record IsValid (r : RingPolicy) : Type 0 where
  pub at_least_two : 2 ≤ length r.slots
  pub at_most_eight : length r.slots ≤ 8
  pub frames : AreIssued r.slots r.sequence

-- A write of anything but a new frame loses frames only.
Holds-set :
    (slots : List Slot) (i : ℕ) (v : Slot) (j s : ℕ)
    → ((k : ℕ) → v ≡ published k → Holds slots i k)
    → Holds (set slots i v) j s
    → Holds slots j s
Holds-set [] i v j s n h = h
Holds-set (x ∷ slots) zero v zero s n h = n s (cc)
Holds-set (x ∷ slots) zero v (suc j) s n h = h
Holds-set (x ∷ slots) (suc i) v zero s n h = h
Holds-set (x ∷ slots) (suc i) v (suc j) s n h = Holds-set slots i v j s n h

set-AreIssued :
    (slots : List Slot) (next i : ℕ) (v : Slot)
    → ((k : ℕ) → v ≡ published k → Holds slots i k)
    → AreIssued slots next
    → AreIssued (set slots i v) next
set-AreIssued slots next i v n f = record {
  issued = λ j s h. f.issued j s (Holds-set slots i v j s n h);
  apart = λ j k s h g. f.apart j k s (Holds-set slots i v j s n h) (Holds-set slots i v k s n g);
}

module _ (r : RingPolicy) (i : ℕ) (v : Slot) (n : (k : ℕ) → v ≡ published k → Holds r.slots i k)
    (w : IsValid r) where
  -- Whatever else changes beside the slots and the sequence.
  set-IsValid :
      (r' : RingPolicy) → r'.slots ≡ set r.slots i v → r'.sequence ≡ r.sequence → IsValid r'
  set-IsValid r' p q = record {
    at_least_two = rw (p, length-set) w.at_least_two;
    at_most_eight = rw (p, length-set) w.at_most_eight;
    frames = rw (p, q) (set-AreIssued r.slots r.sequence i v n w.frames);
  }

pub writer_acquire-IsValid :
    (r : RingPolicy) {a : Option WriterSlot × RingPolicy}
    → IsValid r
    → writer_acquire r ≡ some a
    → IsValid a.1
writer_acquire-IsValid r w e = go (acquired r e)
  where
    go : {x : Option WriterSlot × RingPolicy} → Acquires r x → IsValid x.1
    go (takes_free i e) = set-IsValid r i writing (λ k e. cc) w _ refl refl
    go (overwrites i seq n h l) = set-IsValid r i writing (λ k e. cc) w _ refl refl
    go (drops n h) = record {
      at_least_two = w.at_least_two;
      at_most_eight = w.at_most_eight;
      frames = w.frames;
    }

pub reader_acquire_latest-IsValid :
    (r : RingPolicy) {a : Option (ℕ × ℕ) × RingPolicy}
    → IsValid r
    → reader_acquire_latest r ≡ some a
    → IsValid a.1
reader_acquire_latest-IsValid r w e = go (checked_out r e)
  where
    go : {x : Option (ℕ × ℕ) × RingPolicy} → Checkout r x → IsValid x.1
    go (takes_newest i seq h m) = set-IsValid r i reading (λ k e. cc) w _ refl refl
    go (nothing_published h) = w

pub writer_abort-IsValid :
    (r : RingPolicy) (i : ℕ) {r' : RingPolicy} → IsValid r → writer_abort r i ≡ some r' → IsValid r'
unfolding writer_abort
writer_abort-IsValid r i {r'} w e =
    set-IsValid r i free (λ k e. cc) w r' (ground arith) (ground arith)

pub reader_release-IsValid :
    (r : RingPolicy) (i : ℕ) {r' : RingPolicy}
    → IsValid r
    → reader_release r i ≡ some r'
    → IsValid r'
unfolding reader_release
reader_release-IsValid r i {r'} w e =
    set-IsValid r i free (λ k e. cc) w r' (ground arith) (ground arith)

-- A frame that is added gets the next sequence, which no slot holds.
Holds-publish :
    (slots : List Slot) (next i j s : ℕ)
    → i < length slots
    → Holds (set slots i (published next)) j s
    → ((i ≡ j) × (s ≡ next)) ⊎ Holds slots j s
Holds-publish slots next i j s b h = ground (arith, get_elem?-set slots i j (published next) b)

publish-AreIssued :
    (slots : List Slot) (next i : ℕ)
    → i < length slots
    → AreIssued slots next
    → AreIssued (set slots i (published next)) (next + 1)
publish-AreIssued slots next i b f = record { issued = below; apart = differ }
  where
    below : (j s : ℕ) → Holds (set slots i (published next)) j s → s < next + 1
    below j s h = elim (Holds-publish slots next i j s b h) [
      | inl new ↦ omega arith
      | inr old ↦ omega (arith, f.issued j s old)
    ]

    differ :
        (j k s : ℕ)
        → Holds (set slots i (published next)) j s
        → Holds (set slots i (published next)) k s
        → j ≡ k
    differ j k s h g = elim (Holds-publish slots next i j s b h) [
      | inl new ↦ elim (Holds-publish slots next i k s b g) [
        | inl same ↦ omega arith
        | inr old ↦ absurd (omega (arith, f.issued k s old))
      ]
      | inr old ↦ elim (Holds-publish slots next i k s b g) [
        | inl same ↦ absurd (omega (arith, f.issued j s old))
        | inr both ↦ f.apart j k s old both
      ]
    ]

-- What a successful `publish` leaves.
pub publish-parts :
    (r : RingPolicy) (i : ℕ) {seq : ℕ} {r' : RingPolicy}
    → publish r i ≡ some (seq, r')
    → (i < length r.slots)
      × (seq ≡ r.sequence)
      × (r'.slots ≡ set r.slots i (published r.sequence))
      × (r'.sequence ≡ next64 r.sequence)
unfolding publish
publish-parts r i e = ground arith

pub publish-IsValid :
    (r : RingPolicy) (i : ℕ) {seq : ℕ} {r' : RingPolicy}
    → IsValid r
    → r.sequence + 1 < 2 ^ 64
    → publish r i ≡ some (seq, r')
    → IsValid r'
publish-IsValid r i {r'} w small e =
    let (b, q, p, n) = publish-parts r i e in
    let next : r'.sequence ≡ r.sequence + 1 = omega arith in
    record {
      at_least_two = rw (p, length-set) w.at_least_two;
      at_most_eight = rw (p, length-set) w.at_most_eight;
      frames = rw (p, next) (publish-AreIssued r.slots r.sequence i b w.frames);
    }

reconciled-published :
    (s : Slot) (shared k : ℕ) → reconciled s shared ≡ published k → s ≡ published k
unfolding reconciled
reconciled-published free shared k e = ground arith
reconciled-published writing shared k e = cc
reconciled-published reading shared k e = ground arith
reconciled-published (published s) shared k e = ground arith

-- What a successful `reconcile_shared` leaves.
pub reconcile_shared-parts :
    (r : RingPolicy) (i shared : ℕ) {r' : RingPolicy}
    → reconcile_shared r i shared ≡ some r'
    → (s : Slot) × (get_elem? r.slots i ≡ some s)
      × (r' ≡ record r { slots = set r.slots i (reconciled s shared) })
unfolding reconcile_shared
reconcile_shared-parts r i shared e = elim (Option-cases (get_elem? r.slots i)) [
  | inl out ↦ ground arith
  | inr (s, here) ↦ (s, here, ground arith)
]

pub reconcile_shared-IsValid :
    (r : RingPolicy) (i shared : ℕ) {r' : RingPolicy}
    → IsValid r
    → reconcile_shared r i shared ≡ some r'
    → IsValid r'
reconcile_shared-IsValid r i shared {r'} w e =
    let (s, here, p) = reconcile_shared-parts r i shared e in
    set-IsValid r i (reconciled s shared)
      (λ k q. subst (λ x. get_elem? r.slots i ≡ some x) (reconciled-published s shared k q) here) w
      r' (ap (λ x. x.slots) p) (ap (λ x. x.sequence) p)

not-Holds_all_free : (slots : List Slot) (i s : ℕ) → ¬ Holds (map (λ _. free) slots) i s
not-Holds_all_free [] i s h = cc
not-Holds_all_free (x ∷ slots) zero s h = cc
not-Holds_all_free (x ∷ slots) (suc i) s h = not-Holds_all_free slots i s h

length-all_free : (slots : List Slot) → length (map (λ _. free) slots) ≡ length slots
length-all_free [] = refl
length-all_free (x ∷ slots) = ap suc (length-all_free slots)

pub rebuild-IsValid : (r : RingPolicy) → IsValid r → IsValid (rebuild r).1
unfolding rebuild
rebuild-IsValid r w = record {
  at_least_two = rw (length-all_free r.slots) w.at_least_two;
  at_most_eight = rw (length-all_free r.slots) w.at_most_eight;
  frames = record {
    issued = λ i s h. absurd (not-Holds_all_free r.slots i s h);
    apart = λ i j s h g. absurd (not-Holds_all_free r.slots i s h);
  };
}

not-Holds-replicate : (n i s : ℕ) → ¬ Holds (replicate n free) i s
not-Holds-replicate zero i s h = cc
not-Holds-replicate (suc n) zero s h = cc
not-Holds-replicate (suc n) (suc i) s h = not-Holds-replicate n i s h

pub new-IsValid : (n : ℕ) → IsValid (new n)
unfolding new
new-IsValid n =
    let size = min (max n 2) 8 in
    record {
      at_least_two = omega (arith, length-replicate size free);
      at_most_eight = omega (arith, length-replicate size free);
      frames = record {
        issued = λ i s h. absurd (not-Holds-replicate size i s h);
        apart = λ i j s h g. absurd (not-Holds-replicate size i s h);
      };
    }
