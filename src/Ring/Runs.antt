-- ===== src/Ring/Runs.antt =====
-- Sequences of calls of crates/luminal-vgd-core/src/ring.rs, in any order and by either side.
use luminal_vgd.Prelude.{
  ℕ, suc, ◌+◌, ◌^◌, ◌≤◌, ◌<◌, ◌≡◌, refl, sym, subst, ap, ◌∙◌, inl, inr, Option, none, some, List,
  [], ◌∷◌, ◌++◌, arith, length, length-append, Option-cases, some-injective,
}
use luminal_vgd.Ring.{
  RingPolicy, WriterSlot, writer_acquire, writer_abort, publish, reader_acquire_latest,
  reader_release, reconcile_shared, rebuild,
}
use luminal_vgd.Ring.Writer.{Acquires, takes_free, overwrites, drops, acquired}
use luminal_vgd.Ring.Reader.{Checkout, takes_newest, nothing_published, checked_out}
use luminal_vgd.Ring.Invariant.{
  IsValid, writer_acquire-IsValid, writer_abort-IsValid, publish-IsValid, publish-parts,
  reader_acquire_latest-IsValid, reader_release-IsValid, reconcile_shared-IsValid,
  reconcile_shared-parts, rebuild-IsValid,
}

-- A call, with its arguments.
pub data Call : Type 0 where
  acquire take_latest rebuilds : Call
  abort publishes release : ℕ → Call
  reconcile : ℕ → ℕ → Call

abbrev pub issued_one : ℕ × RingPolicy → List ℕ × RingPolicy
issued_one (seq, r) = (seq ∷ [], r)

abbrev pub issued_none : RingPolicy → List ℕ × RingPolicy
issued_none r = ([], r)

abbrev pub map_some {ℓ κ} : {A : Type ℓ} {B : Type κ} → (A → B) → Option A → Option B
map_some f none = none
map_some f (some a) = some (f a)

-- The ring that an acquisition leaves.
abbrev pub ring_of {ℓ} : {A : Type ℓ} → A × RingPolicy → RingPolicy
ring_of (a, r) = r

-- The sequences that a call gives to frames, and the ring after it; none where it panics.
unfoldable pub perform : RingPolicy → Call → Option (List ℕ × RingPolicy)
perform r acquire = map_some issued_none (map_some ring_of (writer_acquire r))
perform r take_latest = map_some issued_none (map_some ring_of (reader_acquire_latest r))
perform r rebuilds = some (issued_none (rebuild r).1)
perform r (abort i) = map_some issued_none (writer_abort r i)
perform r (publishes i) = map_some issued_one (publish r i)
perform r (release i) = map_some issued_none (reader_release r i)
perform r (reconcile i shared) = map_some issued_none (reconcile_shared r i shared)

unfoldable pub run : RingPolicy → List Call → Option (List ℕ × RingPolicy)
run r [] = some ([], r)
run r (c ∷ cs) = elim (perform r c) [
  | none ↦ none
  | some (out, r') ↦ map_some (λ (later, last). (out ++ later, last)) (run r' cs)
]

-- The `n` numbers from `start` on.
abbrev pub count_from : ℕ → ℕ → List ℕ
count_from start ℕ.zero = []
count_from start (suc n) = start ∷ count_from (start + 1) n

-- What a run does to the sequence.
pub record Consecutive (r : RingPolicy) (out : List ℕ) (last : RingPolicy) : Type 0 where
  pub valid : IsValid last
  pub in_order : out ≡ count_from r.sequence (length out)
  pub advanced : last.sequence ≡ r.sequence + length out

sequence-writer_acquire :
    (r : RingPolicy) {a : Option WriterSlot × RingPolicy}
    → writer_acquire r ≡ some a
    → a.1.sequence ≡ r.sequence
sequence-writer_acquire r found = go (acquired r found)
  where
    go : {x : Option WriterSlot × RingPolicy} → Acquires r x → x.1.sequence ≡ r.sequence
    go (takes_free i e) = refl
    go (overwrites i seq n h l) = refl
    go (drops n h) = refl

sequence-reader_acquire_latest :
    (r : RingPolicy) {a : Option (ℕ × ℕ) × RingPolicy}
    → reader_acquire_latest r ≡ some a
    → a.1.sequence ≡ r.sequence
sequence-reader_acquire_latest r found = go (checked_out r found)
  where
    go : {x : Option (ℕ × ℕ) × RingPolicy} → Checkout r x → x.1.sequence ≡ r.sequence
    go (takes_newest i seq h m) = refl
    go (nothing_published h) = refl

sequence-writer_abort :
    (r : RingPolicy) (i : ℕ) (r' : RingPolicy)
    → writer_abort r i ≡ some r'
    → r'.sequence ≡ r.sequence
unfolding writer_abort
sequence-writer_abort r i r' e = ground arith

sequence-reader_release :
    (r : RingPolicy) (i : ℕ) (r' : RingPolicy)
    → reader_release r i ≡ some r'
    → r'.sequence ≡ r.sequence
unfolding reader_release
sequence-reader_release r i r' e = ground arith

sequence-rebuild : (r : RingPolicy) → (rebuild r).1.sequence ≡ r.sequence
unfolding rebuild
sequence-rebuild r = refl

abbrev Step : RingPolicy → List ℕ → RingPolicy → Type 0
Step r out r' = Consecutive r out r' × (length out ≤ 1)

-- The answer of an acquisition, from the ring that it leaves.
ring_of-some {ℓ} :
    {A : Type ℓ} (o : Option (A × RingPolicy)) (x : RingPolicy)
    → map_some ring_of o ≡ some x
    → (a : A × RingPolicy) × (o ≡ some a) × (a.1 ≡ x)
ring_of-some none x e = cc
ring_of-some (some (a, r)) x e = ((a, r), refl, some-injective e)

pub left_by {ℓ} :
    {A : Type ℓ} (o : Option (A × RingPolicy)) (out : List ℕ) (x : RingPolicy)
    → map_some issued_none (map_some ring_of o) ≡ some (out, x)
    → (a : A × RingPolicy) × (o ≡ some a) × (a.1 ≡ x)
left_by none out x e = cc
left_by (some (a, r)) out x e = ((a, r), refl, ap (λ y. y.1) (some-injective e))

-- A call that issues no sequence.
silent :
    (r : RingPolicy) (o : Option RingPolicy) (out : List ℕ) (r' : RingPolicy)
    → ((x : RingPolicy) → o ≡ some x → IsValid x × (x.sequence ≡ r.sequence))
    → map_some issued_none o ≡ some (out, r')
    → Step r out r'
silent r none out r' f e = cc
silent r (some x) out r' f e =
    let same : x ≡ r' = ground arith in
    let empty : [] ≡ out = ground arith in
    let (v, q) = f x refl in
    subst (λ l. Step r l r') empty
      (
        record { valid = subst IsValid same v; in_order = refl; advanced = ground arith },
        omega arith,
      )

issuing :
    (r : RingPolicy) (i : ℕ) (o : Option (ℕ × RingPolicy)) (out : List ℕ) (r' : RingPolicy)
    → IsValid r
    → r.sequence + 1 < 2 ^ 64
    → publish r i ≡ o
    → map_some issued_one o ≡ some (out, r')
    → Step r out r'
issuing r i none out r' v small p e = cc
issuing r i (some (seq, x)) out r' v small p e =
    let same : x ≡ r' = ground arith in
    let one : seq ∷ [] ≡ out = ground arith in
    let (b, q, t, n) = publish-parts r i p in
    subst (λ l. Step r l r') one
      (
        record {
          valid = subst IsValid same (publish-IsValid r i v small p);
          in_order = rw q refl;
          advanced = ap (λ y. y.sequence) (sym same) ∙ n ∙ omega arith;
        },
        omega arith,
      )

perform-Step :
    (r : RingPolicy) (c : Call) (out : List ℕ) (r' : RingPolicy)
    → IsValid r
    → r.sequence + 1 < 2 ^ 64
    → perform r c ≡ some (out, r')
    → Step r out r'
unfolding perform
perform-Step r acquire out r' v small e =
    silent r (map_some ring_of (writer_acquire r)) out r'
      (λ x p.
        let (a, f, q) = ring_of-some (writer_acquire r) x p in
        subst (λ y. IsValid y × (y.sequence ≡ r.sequence)) q
          (writer_acquire-IsValid r v f, sequence-writer_acquire r f))
      e
perform-Step r take_latest out r' v small e =
    silent r (map_some ring_of (reader_acquire_latest r)) out r'
      (λ x p.
        let (a, f, q) = ring_of-some (reader_acquire_latest r) x p in
        subst (λ y. IsValid y × (y.sequence ≡ r.sequence)) q
          (reader_acquire_latest-IsValid r v f, sequence-reader_acquire_latest r f))
      e
perform-Step r rebuilds out r' v small e =
    silent r (some (rebuild r).1) out r'
      (λ x p.
        let q : (rebuild r).1 ≡ x = cc in
        subst (λ y. IsValid y × (y.sequence ≡ r.sequence)) q
          (rebuild-IsValid r v, sequence-rebuild r))
      e
perform-Step r (abort i) out r' v small e =
    silent r (writer_abort r i) out r'
      (λ x p. (writer_abort-IsValid r i v p, sequence-writer_abort r i x p)) e
perform-Step r (publishes i) out r' v small e = issuing r i (publish r i) out r' v small refl e
perform-Step r (release i) out r' v small e =
    silent r (reader_release r i) out r'
      (λ x p. (reader_release-IsValid r i v p, sequence-reader_release r i x p)) e
perform-Step r (reconcile i shared) out r' v small e =
    silent r (reconcile_shared r i shared) out r'
      (λ x p.
        let (s, here, q) = reconcile_shared-parts r i shared p in
        (reconcile_shared-IsValid r i shared v p, ap (λ y. y.sequence) q))
      e

-- Parts of a run that answers.
pub run-split :
    (r : RingPolicy) (c : Call) (cs : List Call) (out : List ℕ) (last : RingPolicy)
    → run r (c ∷ cs) ≡ some (out, last)
    → (one : List ℕ) × (next : RingPolicy) × (later : List ℕ) × (perform r c ≡ some (one, next))
      × (run next cs ≡ some (later, last))
      × (out ≡ one ++ later)
unfolding run
run-split r c cs out last e = elim (Option-cases (perform r c)) [
  | inl bad ↦ ground arith
  | inr ((one, next), good) ↦ elim (Option-cases (run next cs)) [
    | inl bad ↦ ground arith
    | inr ((later, end), rest) ↦ (one, next, later, good, ground arith, ground arith)
  ]
]

count_from-append :
    (start : ℕ) (xs ys : List ℕ)
    → xs ≡ count_from start (length xs)
    → ys ≡ count_from (start + length xs) (length ys)
    → xs ++ ys ≡ count_from start (length (xs ++ ys))
count_from-append start [] ys p q = q ∙ ap (λ k. count_from k (length ys)) (omega arith)
count_from-append start (x ∷ xs) ys p q =
    let head : x ≡ start = cc in
    let tail : xs ≡ count_from (start + 1) (length xs) = cc in
    let shift : start + length (x ∷ xs) ≡ start + 1 + length xs = omega arith in
    let rest = count_from-append (start + 1) xs ys tail (rw shift at q) in
    ap (λ k. k ∷ (xs ++ ys)) head ∙ ap (λ l. start ∷ l) rest

-- Whatever the calls and their order, frames lost and rings rebuilt included, the frames that a run
-- publishes get consecutive sequences from the ring's next one on, and the ring stays valid; the
-- counter must have room for as many calls.
pub run-Consecutive :
    (r : RingPolicy) (cs : List Call) (out : List ℕ) (last : RingPolicy)
    → IsValid r
    → r.sequence + length cs < 2 ^ 64
    → run r cs ≡ some (out, last)
    → Consecutive r out last
unfolding run
run-Consecutive r [] out last v small e =
    let same : r ≡ last = ground arith in
    let empty : [] ≡ out = ground arith in
    subst (λ l. Consecutive r l last) empty
      (record { valid = subst IsValid same v; in_order = refl; advanced = ground arith })
run-Consecutive r (c ∷ cs) out last v small e =
    let (one, next, later, first, rest, both) = run-split r c cs out last e in
    let (step, short) = perform-Step r c one next v (omega arith) first in
    let tail = run-Consecutive next cs later last step.valid (omega (arith, step.advanced)) rest in
    subst (λ l. Consecutive r l last) (sym both)
      (record {
        valid = tail.valid;
        in_order =
            count_from-append r.sequence one later step.in_order
              (subst (λ k. later ≡ count_from k (length later)) step.advanced tail.in_order);
        advanced = omega (arith, tail.advanced, step.advanced, length-append one later);
      })
