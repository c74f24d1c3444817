-- ===== src/Ring/Slots.antt =====
-- What the searches over the slots of crates/luminal-vgd-core/src/ring.rs find.
use luminal_vgd.Prelude.{
  ℕ, zero, suc, ◌+◌, ◌≤◌, ◌≡◌, refl, subst, ◌≢◌, inl, inr, none, some, List, [], ◌∷◌, arith, In,
  get_elem?, get_elem?-lt, length, true, ltb, if◌then◌else◌,
}
use luminal_vgd.Ring.{
  RingPolicy, Slot, free, writing, reading, published, position_free, published_slots, oldest_from,
  oldest, newest_from, newest,
}

-- `position` finds the first free slot.
pub position_free-some :
    (i : ℕ) (slots : List Slot) (k : ℕ)
    → position_free i slots ≡ some k
    → (d : ℕ) × (k ≡ i + d) × (get_elem? slots d ≡ some free)
unfolding position_free
position_free-some i [] k h = cc
position_free-some i (free ∷ slots) k h = (0, ground arith, refl)
position_free-some i (writing ∷ slots) k h =
    let (d, p, q) = position_free-some (i + 1) slots k h in (suc d, omega arith, q)
position_free-some i (reading ∷ slots) k h =
    let (d, p, q) = position_free-some (i + 1) slots k h in (suc d, omega arith, q)
position_free-some i (published s ∷ slots) k h =
    let (d, p, q) = position_free-some (i + 1) slots k h in (suc d, omega arith, q)

pub position_free-none :
    (i : ℕ) (slots : List Slot) (d : ℕ)
    → position_free i slots ≡ none
    → get_elem? slots d ≢ some free
unfolding position_free
position_free-none i [] d h = λ e. cc
position_free-none i (free ∷ slots) d h = cc
position_free-none i (writing ∷ slots) zero h = λ e. ground arith
position_free-none i (writing ∷ slots) (suc d) h = position_free-none (i + 1) slots d h
position_free-none i (reading ∷ slots) zero h = λ e. ground arith
position_free-none i (reading ∷ slots) (suc d) h = position_free-none (i + 1) slots d h
position_free-none i (published s ∷ slots) zero h = λ e. ground arith
position_free-none i (published s ∷ slots) (suc d) h = position_free-none (i + 1) slots d h

-- The candidates of a search are the published slots.
pub published_slots_sound :
    (i : ℕ) (slots : List Slot) (c : ℕ × ℕ)
    → In c (published_slots i slots)
    → (d : ℕ) × (c.0 ≡ i + d) × (get_elem? slots d ≡ some (published c.1))
unfolding published_slots
published_slots_sound i [] c h = absurd h
published_slots_sound i (published s ∷ slots) c (inl e) = (0, ground arith, ground arith)
published_slots_sound i (published s ∷ slots) c (inr h) =
    let (d, p, q) = published_slots_sound (i + 1) slots c h in (suc d, omega arith, q)
published_slots_sound i (free ∷ slots) c h =
    let (d, p, q) = published_slots_sound (i + 1) slots c h in (suc d, omega arith, q)
published_slots_sound i (writing ∷ slots) c h =
    let (d, p, q) = published_slots_sound (i + 1) slots c h in (suc d, omega arith, q)
published_slots_sound i (reading ∷ slots) c h =
    let (d, p, q) = published_slots_sound (i + 1) slots c h in (suc d, omega arith, q)

pub published_slots_complete :
    (i : ℕ) (slots : List Slot) (d s k : ℕ)
    → get_elem? slots d ≡ some (published s)
    → k ≡ i + d
    → In (k, s) (published_slots i slots)
unfolding published_slots
published_slots_complete i [] d s k h e = cc
published_slots_complete i (published t ∷ slots) zero s k h e = inl (ground arith)
published_slots_complete i (free ∷ slots) zero s k h e = ground arith
published_slots_complete i (writing ∷ slots) zero s k h e = ground arith
published_slots_complete i (reading ∷ slots) zero s k h e = ground arith
published_slots_complete i (published t ∷ slots) (suc d) s k h e =
    inr (published_slots_complete (i + 1) slots d s k h (omega arith))
published_slots_complete i (free ∷ slots) (suc d) s k h e =
    published_slots_complete (i + 1) slots d s k h (omega arith)
published_slots_complete i (writing ∷ slots) (suc d) s k h e =
    published_slots_complete (i + 1) slots d s k h (omega arith)
published_slots_complete i (reading ∷ slots) (suc d) s k h e =
    published_slots_complete (i + 1) slots d s k h (omega arith)

-- The fold of `min_by_key` ends in a least element, the fold of `max_by_key` in a greatest.
oldest_from-In : (b : ℕ × ℕ) (l : List (ℕ × ℕ)) → In (oldest_from b l) (b ∷ l)
unfolding oldest_from
oldest_from-In b [] = inl refl
oldest_from-In b (c ∷ l) = ground (arith, oldest_from-In (if ltb c.1 b.1 then c else b) l)

oldest_from-le : (b : ℕ × ℕ) (l : List (ℕ × ℕ)) → (oldest_from b l).1 ≤ b.1
unfolding oldest_from
oldest_from-le b [] = omega arith
oldest_from-le b (c ∷ l) = ground (arith, oldest_from-le (if ltb c.1 b.1 then c else b) l)

oldest_from-le_all : (b : ℕ × ℕ) (l : List (ℕ × ℕ)) (c : ℕ × ℕ) → In c l → (oldest_from b l).1 ≤ c.1
unfolding oldest_from
oldest_from-le_all b [] c h = absurd h
oldest_from-le_all b (d ∷ l) c (inl e) =
    ground (arith, oldest_from-le (if ltb d.1 b.1 then d else b) l)
oldest_from-le_all b (d ∷ l) c (inr h) = oldest_from-le_all (if ltb d.1 b.1 then d else b) l c h

newest_from-In : (b : ℕ × ℕ) (l : List (ℕ × ℕ)) → In (newest_from b l) (b ∷ l)
unfolding newest_from
newest_from-In b [] = inl refl
newest_from-In b (c ∷ l) = ground (arith, newest_from-In (if ltb c.1 b.1 then b else c) l)

newest_from-ge : (b : ℕ × ℕ) (l : List (ℕ × ℕ)) → b.1 ≤ (newest_from b l).1
unfolding newest_from
newest_from-ge b [] = omega arith
newest_from-ge b (c ∷ l) = ground (arith, newest_from-ge (if ltb c.1 b.1 then b else c) l)

newest_from-ge_all : (b : ℕ × ℕ) (l : List (ℕ × ℕ)) (c : ℕ × ℕ) → In c l → c.1 ≤ (newest_from b l).1
unfolding newest_from
newest_from-ge_all b [] c h = absurd h
newest_from-ge_all b (d ∷ l) c (inl e) =
    ground (arith, newest_from-ge (if ltb d.1 b.1 then b else d) l)
newest_from-ge_all b (d ∷ l) c (inr h) = newest_from-ge_all (if ltb d.1 b.1 then b else d) l c h

-- A published slot is at the index `i` with the sequence `seq`.
abbrev pub Holds : List Slot → ℕ → ℕ → Type 0
Holds slots i seq = get_elem? slots i ≡ some (published seq)

candidate-Holds :
    (slots : List Slot) (c : ℕ × ℕ) → In c (published_slots 0 slots) → Holds slots c.0 c.1
candidate-Holds slots c h =
    let (d, p, q) = published_slots_sound 0 slots c h in
    let same : d ≡ c.0 = omega arith in subst (λ k. Holds slots k c.1) same q

Holds-candidate :
    (slots : List Slot) (i seq : ℕ) → Holds slots i seq → In (i, seq) (published_slots 0 slots)
Holds-candidate slots i seq h = published_slots_complete 0 slots i seq i h (omega arith)

oldest-In :
    (l : List (ℕ × ℕ)) (c : ℕ × ℕ) → oldest l ≡ some c → In c l × ((d : ℕ × ℕ) → In d l → c.1 ≤ d.1)
unfolding oldest
oldest-In [] c h = cc
oldest-In (b ∷ l) c h =
    let same : oldest_from b l ≡ c = cc in
    subst (λ x. In x (b ∷ l) × ((d : ℕ × ℕ) → In d (b ∷ l) → x.1 ≤ d.1)) same
      (oldest_from-In b l, least)
  where
    least : (d : ℕ × ℕ) → In d (b ∷ l) → (oldest_from b l).1 ≤ d.1
    least d (inl e) = rw e (oldest_from-le b l)
    least d (inr m) = oldest_from-le_all b l d m

newest-In :
    (l : List (ℕ × ℕ)) (c : ℕ × ℕ) → newest l ≡ some c → In c l × ((d : ℕ × ℕ) → In d l → d.1 ≤ c.1)
unfolding newest
newest-In [] c h = cc
newest-In (b ∷ l) c h =
    let same : newest_from b l ≡ c = cc in
    subst (λ x. In x (b ∷ l) × ((d : ℕ × ℕ) → In d (b ∷ l) → d.1 ≤ x.1)) same
      (newest_from-In b l, greatest)
  where
    greatest : (d : ℕ × ℕ) → In d (b ∷ l) → d.1 ≤ (newest_from b l).1
    greatest d (inl e) = rw e (newest_from-ge b l)
    greatest d (inr m) = newest_from-ge_all b l d m

none-nil_oldest : (l : List (ℕ × ℕ)) (c : ℕ × ℕ) → oldest l ≡ none → ¬ In c l
unfolding oldest
none-nil_oldest [] c h m = m
none-nil_oldest (b ∷ l) c h m = cc

none-nil_newest : (l : List (ℕ × ℕ)) (c : ℕ × ℕ) → newest l ≡ none → ¬ In c l
unfolding newest
none-nil_newest [] c h m = m
none-nil_newest (b ∷ l) c h m = cc

-- The two searches over the published slots.
module _ (slots : List Slot) where
  pub oldest-Holds :
      (i seq : ℕ)
      → oldest (published_slots 0 slots) ≡ some (i, seq)
      → Holds slots i seq × ((j s : ℕ) → Holds slots j s → seq ≤ s)
  oldest-Holds i seq h =
      let (m, least) = oldest-In _ (i, seq) h in
      (candidate-Holds slots (i, seq) m, λ j s k. least (j, s) (Holds-candidate slots j s k))

  pub newest-Holds :
      (i seq : ℕ)
      → newest (published_slots 0 slots) ≡ some (i, seq)
      → Holds slots i seq × ((j s : ℕ) → Holds slots j s → s ≤ seq)
  newest-Holds i seq h =
      let (m, most) = newest-In _ (i, seq) h in
      (candidate-Holds slots (i, seq) m, λ j s k. most (j, s) (Holds-candidate slots j s k))

  pub oldest-none : oldest (published_slots 0 slots) ≡ none → (j s : ℕ) → ¬ Holds slots j s
  oldest-none h j s k = none-nil_oldest _ (j, s) h (Holds-candidate slots j s k)

  pub newest-none : newest (published_slots 0 slots) ≡ none → (j s : ℕ) → ¬ Holds slots j s
  newest-none h j s k = none-nil_newest _ (j, s) h (Holds-candidate slots j s k)

-- A slot that is there is in range.
pub in_range :
    (r : RingPolicy) (i : ℕ) {s : Slot}
    → get_elem? r.slots i ≡ some s
    → ltb i (length r.slots) ≡ true
in_range r i e = let below = get_elem?-lt r.slots i e in ground arith
