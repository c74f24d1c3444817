-- ===== src/Ring/Held.antt =====
-- Slots that the host holds, in crates/luminal-vgd-core/src/ring.rs: no call that does not name
-- such a slot touches it, short of a rebuild.
use luminal_vgd.Prelude.{
  ℕ, ◌≡◌, refl, sym, ap, ◌∙◌, ◌≢◌, inl, inr, Option, some, List, [], ◌∷◌, arith, set, All,
  get_elem?, get_elem?-set_ne, Option-cases, subst,
}
use luminal_vgd.Ring.{
  Slot, reading, free, writing, published, RingPolicy, WriterSlot, writer_acquire, writer_abort,
  publish, reader_acquire_latest, reader_release, reconciled, reconcile_shared,
}
use luminal_vgd.Ring.Writer.{Acquires, takes_free, overwrites, drops, acquired}
use luminal_vgd.Ring.Reader.{Checkout, takes_newest, nothing_published, checked_out}
use luminal_vgd.Ring.Runs.{
  Call, acquire, take_latest, rebuilds, abort, publishes, release, reconcile, perform, run,
  run-split, left_by,
}

-- A call that leaves the slot `i` to its holder: it does not name the slot, and is no rebuild.
abbrev pub Spares : ℕ → Call → Type 0
Spares i acquire = Unit {0}
Spares i take_latest = Unit {0}
Spares i rebuilds = ⊥
Spares i (abort j) = j ≢ i
Spares i (publishes j) = j ≢ i
Spares i (release j) = j ≢ i
Spares i (reconcile j shared) = j ≢ i

abbrev Held : ℕ → List Slot → Type 0
Held i slots = get_elem? slots i ≡ some reading

-- A write to another slot leaves the held one.
set-Held :
    (i j : ℕ) (v : Slot) (slots slots' : List Slot)
    → j ≢ i
    → slots' ≡ set slots j v
    → Held i slots
    → Held i slots'
set-Held i j v slots slots' n e h = ap (λ l. get_elem? l i) e ∙ get_elem?-set_ne slots v n ∙ h

-- The slot that an acquisition takes is not held.
take-Held :
    (i j : ℕ) (v : Slot) (slots : List Slot) (s : Slot)
    → Held i slots
    → get_elem? slots j ≡ some s
    → s ≢ reading
    → Held i (set slots j v)
take-Held i j v slots s h e n = set-Held i j v slots _ other refl h
  where
    other : j ≢ i
    other q = let both : some s ≡ some reading = sym e ∙ ap (get_elem? slots) q ∙ h in n (cc)

writer_acquire-Held :
    (i : ℕ) (r : RingPolicy) {a : Option WriterSlot × RingPolicy}
    → Held i r.slots
    → writer_acquire r ≡ some a
    → Held i a.1.slots
writer_acquire-Held i r h found = go (acquired r found)
  where
    go : {x : Option WriterSlot × RingPolicy} → Acquires r x → Held i x.1.slots
    go (takes_free j e) = take-Held i j writing r.slots free h e (λ q. cc)
    go (overwrites j seq n e l) = take-Held i j writing r.slots (published seq) h e (λ q. cc)
    go (drops n e) = h

reader_acquire_latest-Held :
    (i : ℕ) (r : RingPolicy) {a : Option (ℕ × ℕ) × RingPolicy}
    → Held i r.slots
    → reader_acquire_latest r ≡ some a
    → Held i a.1.slots
reader_acquire_latest-Held i r h found = go (checked_out r found)
  where
    go : {x : Option (ℕ × ℕ) × RingPolicy} → Checkout r x → Held i x.1.slots
    go (takes_newest j seq e m) = take-Held i j reading r.slots (published seq) h e (λ q. cc)
    go (nothing_published e) = h

perform-Held :
    (i : ℕ) (r : RingPolicy) (c : Call) (out : List ℕ) (r' : RingPolicy)
    → Spares i c
    → Held i r.slots
    → perform r c ≡ some (out, r')
    → Held i r'.slots
unfolding perform writer_abort publish reader_release reconcile_shared
perform-Held i r acquire out r' s h e =
    let (a, f, q) = left_by (writer_acquire r) out r' e in
    subst (λ x. Held i x.slots) q (writer_acquire-Held i r h f)
perform-Held i r take_latest out r' s h e =
    let (a, f, q) = left_by (reader_acquire_latest r) out r' e in
    subst (λ x. Held i x.slots) q (reader_acquire_latest-Held i r h f)
perform-Held i r rebuilds out r' s h e = absurd s
perform-Held i r (abort j) out r' s h e = set-Held i j free r.slots r'.slots s (ground arith) h
perform-Held i r (publishes j) out r' s h e =
    set-Held i j (published r.sequence) r.slots r'.slots s (ground arith) h
perform-Held i r (release j) out r' s h e = set-Held i j free r.slots r'.slots s (ground arith) h
perform-Held i r (reconcile j shared) out r' s h e = elim (Option-cases (get_elem? r.slots j)) [
  | inl outside ↦ ground arith
  | inr (old, here) ↦ set-Held i j (reconciled old shared) r.slots r'.slots s (ground arith) h
]

-- A slot that the host holds stays as it is through any run of calls that neither name that slot
-- nor rebuild the ring: no choice of slot by the writer or by a later reader ever falls on it.
pub run_keeps_held :
    (i : ℕ) (r : RingPolicy) (cs : List Call) (out : List ℕ) (last : RingPolicy)
    → get_elem? r.slots i ≡ some reading
    → All (Spares i) cs
    → run r cs ≡ some (out, last)
    → get_elem? last.slots i ≡ some reading
unfolding run
run_keeps_held i r [] out last h s e = ground arith
run_keeps_held i r (c ∷ cs) out last h s e =
    let (one, next, later, first, rest, both) = run-split r c cs out last e in
    run_keeps_held i next cs later last (perform-Held i r c one next s.0 h first) s.1 rest
