-- ===== src/Ring/Totality.antt =====
-- Which runs of crates/luminal-vgd-core/src/ring.rs do not panic: an index out of range is the only way.
use luminal_vgd.Prelude.{
  ℕ, suc, ◌<◌, ◌≡◌, refl, sym, subst, ap, Option, some, List, [], ◌∷◌, ◌++◌, arith, set, All, ltb,
  true, length, length-set, get_elem?, map,
}
use luminal_vgd.Ring.{
  Slot, free, writing, reading, published, next64, RingPolicy, WriterSlot, writer_abort, publish,
  reader_release, reconcile_shared, reconciled, rebuild,
}
use luminal_vgd.Ring.Writer.{Acquires, takes_free, overwrites, drops, writer_acquire-Acquires}
use luminal_vgd.Ring.Reader.{
  Checkout, takes_newest, nothing_published, reader_acquire_latest-Checkout,
}
use luminal_vgd.Ring.Runs.{
  Call, acquire, take_latest, rebuilds, abort, publishes, release, reconcile, perform, run,
}

-- A call that names no slot, or one of the first `n`.
abbrev pub Names : ℕ → Call → Type 0
Names n acquire = Unit {0}
Names n take_latest = Unit {0}
Names n rebuilds = Unit {0}
Names n (abort i) = i < n
Names n (publishes i) = i < n
Names n (release i) = i < n
Names n (reconcile i shared) = i < n

-- A call that answers, and leaves as many slots.
abbrev Answers : RingPolicy → Call → Type 0
Answers r c =
    (out : List ℕ) × (r' : RingPolicy) × (perform r c ≡ some (out, r'))
    × (length r'.slots ≡ length r.slots)

length-acquired :
    (r : RingPolicy) {a : Option WriterSlot × RingPolicy}
    → Acquires r a
    → length a.1.slots ≡ length r.slots
length-acquired r (takes_free i e) = length-set r.slots i writing
length-acquired r (overwrites i seq n h l) = length-set r.slots i writing
length-acquired r (drops n h) = refl

length-checked_out :
    (r : RingPolicy) {a : Option (ℕ × ℕ) × RingPolicy}
    → Checkout r a
    → length a.1.slots ≡ length r.slots
length-checked_out r (takes_newest i seq h m) = length-set r.slots i reading
length-checked_out r (nothing_published h) = refl

length-map-free : (slots : List Slot) → length (map (λ (_ : Slot). free) slots) ≡ length slots
length-map-free [] = refl
length-map-free (s ∷ slots) = ap (λ n. suc n) (length-map-free slots)

in_range : (i n : ℕ) → i < n → ltb i n ≡ true
in_range i n h = ground arith

found_below :
    (slots : List Slot) (i : ℕ) → i < length slots → (s : Slot) × (get_elem? slots i ≡ some s)
found_below [] i h = absurd (omega arith)
found_below (s ∷ slots) ℕ.zero h = (s, refl)
found_below (s ∷ slots) (suc i) h = found_below slots i (omega arith)

perform-Answers : (r : RingPolicy) (c : Call) → Names (length r.slots) c → Answers r c
unfolding perform writer_abort publish reader_release reconcile_shared rebuild
perform-Answers r acquire h =
    let (a, e, w) = writer_acquire-Acquires r in ([], a.1, rw e refl, length-acquired r w)
perform-Answers r take_latest h =
    let (a, e, w) = reader_acquire_latest-Checkout r in ([], a.1, rw e refl, length-checked_out r w)
perform-Answers r rebuilds h = (_, _, refl, length-map-free r.slots)
perform-Answers r (abort i) h =
    let r' : RingPolicy = record r {
      slots = set r.slots i free;
      frames_dropped = next64 r.frames_dropped;
    } in
    ([], r', rw (in_range i (length r.slots) h, writer_abort) refl, length-set r.slots i free)
perform-Answers r (publishes i) h =
    let r' : RingPolicy = record r {
      sequence = next64 r.sequence;
      frames_published = next64 r.frames_published;
      slots = set r.slots i (published r.sequence);
    } in
    (
      r.sequence ∷ [],
      r',
      rw (in_range i (length r.slots) h, publish) refl,
      length-set r.slots i (published r.sequence),
    )
perform-Answers r (release i) h =
    let r' : RingPolicy = record r { slots = set r.slots i free } in
    ([], r', rw (in_range i (length r.slots) h, reader_release) refl, length-set r.slots i free)
perform-Answers r (reconcile i shared) h =
    let (s, e) = found_below r.slots i h in
    let r' : RingPolicy = record r { slots = set r.slots i (reconciled s shared) } in
    ([], r', rw (e, reconcile_shared) refl, length-set r.slots i (reconciled s shared))

-- A run whose calls name only slots that the ring has does not panic.
pub run-total :
    (r : RingPolicy) (cs : List Call)
    → All (Names (length r.slots)) cs
    → (out : List ℕ) × (last : RingPolicy) × (run r cs ≡ some (out, last))
unfolding run
run-total r [] h = ([], r, refl)
run-total r (c ∷ cs) h =
    let (one, next, e, same) = perform-Answers r c h.0 in
    let (later, last, f) = run-total next cs (subst (λ n. All (Names n) cs) (sym same) h.1) in
    (one ++ later, last, rw (e, f, run) refl)
