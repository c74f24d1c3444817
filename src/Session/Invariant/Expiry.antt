-- ===== src/Session/Invariant/Expiry.antt =====
-- The watchdog of crates/luminal-vgd-core/src/session.rs removes the monitors whose lease has run
-- out, and no other.
use luminal_vgd.Prelude.{
  ℕ, suc, ◌≤◌, ◌≡◌, refl, sym, subst, ap, ◌∙◌, ◌≢◌, ◌↔◌, inl, inr, true, false, Bool, some, List,
  [], ◌∷◌, arith, Bool-cases, In, ◌==◌, ==_refl,
}
use luminal_vgd.Prelude.Map.{
  Map, lookup, remove, values, Ascending, lookup-remove, lookup→In_values,
}
use luminal_vgd.Session.State.{Monitor, SessionTable}
use luminal_vgd.Session.Lease.{has_expired}
use luminal_vgd.Session.Removal.{take_out, dead, reap, tick}
use luminal_vgd.Session.Invariant.Defs.{IsValid}
use luminal_vgd.Session.Invariant.Removing.{take_out-IsValid, found_after_removal}

-- Identifiers in ascending order, at or above the bound.
abbrev pub Rising : ℕ → List ℕ → Type 0
Rising n [] = Unit {0}
Rising n (x ∷ xs) = (n ≤ x) × Rising (suc x) xs

Rising-mono : (m n : ℕ) (xs : List ℕ) → m ≤ n → Rising n xs → Rising m xs
Rising-mono m n [] h r = tt
Rising-mono m n (x ∷ xs) h r = (omega (arith, r.0), r.1)

Rising-In : (n x : ℕ) (xs : List ℕ) → Rising n xs → In x xs → n ≤ x
Rising-In n x [] r h = absurd h
Rising-In n x (y ∷ ys) r (inl e) = omega (arith, r.0)
Rising-In n x (y ∷ ys) r (inr h) = omega (arith, r.0, Rising-In (suc y) x ys r.1 h)

lookup-above :
    (n k : ℕ) (m : Monitor) (ms : Map Monitor) → Ascending n ms → lookup k ms ≡ some m → n ≤ k
lookup-above n k m [] s e = cc
lookup-above n k m ((j, w) ∷ ms) s e = elim (Bool-cases (j == k)) [
  | inl same ↦ ground (arith, s.0)
  | inr other ↦ omega (arith, s.0, lookup-above (suc j) k m ms s.1 (rw other at e))
]

-- Every monitor stands under its own session identifier.
abbrev pub Keyed : Map Monitor → Type 0
Keyed ms = (k : ℕ) (m : Monitor) → lookup k ms ≡ some m → m.session_id ≡ k

lookup_tail :
    (n j k : ℕ) (w m : Monitor) (ms : Map Monitor)
    → Ascending n ((j, w) ∷ ms)
    → lookup k ms ≡ some m
    → lookup k ((j, w) ∷ ms) ≡ some m
lookup_tail n j k w m ms s e = ground (arith, lookup-above (suc j) k m ms s.1 e)

Keyed-tail :
    (n j : ℕ) (w : Monitor) (ms : Map Monitor)
    → Ascending n ((j, w) ∷ ms)
    → Keyed ((j, w) ∷ ms)
    → (w.session_id ≡ j) × Keyed ms
Keyed-tail n j w ms s h =
    (h j w (rw (==_refl j) refl), λ k m e. h k m (lookup_tail n j k w m ms s e))

dead-Rising :
    (now n : ℕ) (ms : Map Monitor) → Ascending n ms → Keyed ms → Rising n (dead now (values ms))
unfolding dead
dead-Rising now n [] s h = tt
dead-Rising now n ((j, w) ∷ ms) s h =
    let (own, rest) = Keyed-tail n j w ms s h in
    let r = dead-Rising now (suc j) ms s.1 rest in
    elim (Bool-cases (has_expired now w)) [
      | inl gone ↦ rw (gone, own) (s.0, r)
      | inr alive ↦ rw alive (Rising-mono n (suc j) (dead now (values ms)) (omega (arith, s.0)) r)
    ]

dead-expired :
    (now n j : ℕ) (ms : Map Monitor)
    → Ascending n ms
    → Keyed ms
    → In j (dead now (values ms))
    → (m : Monitor) × (lookup j ms ≡ some m) × (has_expired now m ≡ true)
unfolding dead
dead-expired now n j [] s h i = absurd i
dead-expired now n j ((k, w) ∷ ms) s h i =
    let (own, rest) = Keyed-tail n k w ms s h in
    let later : In j (dead now (values ms))
        → (m : Monitor) × (lookup j ((k, w) ∷ ms) ≡ some m) × (has_expired now m ≡ true) =
      λ i'.
        let (m, e, x) = dead-expired now (suc k) j ms s.1 rest i' in
        (m, lookup_tail n k j w m ms s e, x) in
    elim (Bool-cases (has_expired now w)) [
      | inr alive ↦ later (rw alive at i)
      | inl gone ↦
          let i1 : In j (w.session_id ∷ dead now (values ms)) = rw gone at i in
          elim i1 [ inl q ↦ (w, ground arith, gone) | inr i' ↦ later i' ]
    ]

expired-dead :
    (now : ℕ) (m : Monitor) (ms : List Monitor)
    → In m ms
    → has_expired now m ≡ true
    → In m.session_id (dead now ms)
unfolding dead
expired-dead now m [] i x = absurd i
expired-dead now m (w ∷ ms) (inl q) x =
    let gone : has_expired now w ≡ true = subst (λ z. has_expired now z ≡ true) q x in
    rw gone (inl (ap (λ z. z.session_id) q))
expired-dead now m (w ∷ ms) (inr i) x = elim (Bool-cases (has_expired now w)) [
  | inl gone ↦ rw gone (inr (expired-dead now m ms i x))
  | inr alive ↦ rw alive (expired-dead now m ms i x)
]

still_found :
    (k j : ℕ) (m : Monitor) (ms : Map Monitor)
    → k ≢ j
    → lookup j ms ≡ some m
    → lookup j (remove k ms) ≡ some m
still_found k j m ms n e = ground (arith, lookup-remove k j ms)

same_found :
    (j k : ℕ) (m n : Monitor) (ms : Map Monitor)
    → lookup j ms ≡ some m
    → lookup k ms ≡ some n
    → j ≡ k
    → m ≡ n
same_found j k m n ms e f q = cc

-- Reaping live sessions in ascending order finds each of them.
reap-IsValid :
    (t : SessionTable) (n : ℕ) (ids : List ℕ)
    → IsValid t
    → Rising n ids
    → ((j : ℕ) → In j ids → (m : Monitor) × (lookup j t.monitors ≡ some m))
    → (gone : List Monitor) × (t' : SessionTable) × (reap t ids ≡ some (gone, t'))
      × IsValid t'
      × ((j : ℕ) (m : Monitor)
          → (lookup j t'.monitors ≡ some m) ↔ (lookup j t.monitors ≡ some m) × (¬ In j ids))
      × ((m : Monitor) → In m gone ↔ (j : ℕ) × (In j ids) × (lookup j t.monitors ≡ some m))
unfolding reap take_out
reap-IsValid t n [] v r live =
    ([], t, refl, v, λ j m. (λ e. (e, λ h. h), λ e. e.0), λ m. (λ h. absurd h, λ h. absurd h.1))
reap-IsValid t n (id ∷ ids) v r live =
    let (m0, here) = live id (inl refl) in
    let apart : (j : ℕ) → In j ids → id ≢ j =
      λ j i q. omega (arith, Rising-In (suc id) j ids r.1 i) in
    let live' : (j : ℕ) → In j ids → (m : Monitor) × (lookup j (remove id t.monitors) ≡ some m) =
      λ j i. let (m, e) = live j (inr i) in (m, still_found id j m t.monitors (apart j i) e) in
    let (gone, t', q, v', left, went) =
      reap-IsValid (take_out t id m0) (suc id) ids (take_out-IsValid t id m0 v here) r.1 live' in
    (
      m0 ∷ gone,
      t',
      rw (here, q, reap) refl,
      v',
      λ j m. (
        λ e.
            let (e', out) = (left j m).0 e in
            let (other, e'') = found_after_removal id j m t.monitors e' in
            (e'', λ h. elim h [ inl p ↦ other (sym p) | inr i ↦ out i ]),
        λ p.
            (left j m).1
              (still_found id j m t.monitors (λ x. p.1 (inl (sym x))) p.0, λ i. p.1 (inr i)),
      ),
      λ m. (
        λ h. elim h [
          | inl p ↦ (id, inl refl, here ∙ ap some (sym p))
          | inr i ↦
              let (j, i', e) = (went m).0 i in
              (j, inr i', (found_after_removal id j m t.monitors e).1)
        ],
        λ x. elim x.1 [
          | inl p ↦ inl (same_found x.0 id m m0 t.monitors x.2 here p)
          | inr i ↦ inr ((went m).1 (x.0, i, still_found id x.0 m t.monitors (apart x.0 i) x.2))
        ],
      ),
    )

listed :
    (t : SessionTable) (now j : ℕ) (m : Monitor)
    → IsValid t
    → lookup j t.monitors ≡ some m
    → In j (dead now (values t.monitors)) ↔ (has_expired now m ≡ true)
listed t now j m v e = (
  λ i.
      let keyed : Keyed t.monitors = λ k n q. (v.monitors k n q).keyed in
      let (n, f, x) = dead-expired now 0 j t.monitors v.sorted keyed i in same_expiry n f x,
  λ x.
      subst (λ z. In z (dead now (values t.monitors))) (v.monitors j m e).keyed
        (expired-dead now m (values t.monitors) (lookup→In_values j m t.monitors e) x),
)
  where
    same_expiry :
        (n : Monitor)
        → lookup j t.monitors ≡ some n
        → has_expired now n ≡ true
        → has_expired now m ≡ true
    same_expiry n f x =
        subst (λ z. has_expired now z ≡ true) (same_found j j n m t.monitors f e refl) x

-- What `tick` answers: exactly the monitors whose lease has run out, and a valid table of the
-- others.
pub record Ticks (t : SessionTable) (now : ℕ) (gone : List Monitor) (t' : SessionTable)
    : Type 0 where
  pub valid : IsValid t'
  pub kept :
      (j : ℕ) (m : Monitor)
      → (lookup j t'.monitors ≡ some m)
        ↔ (lookup j t.monitors ≡ some m) × (has_expired now m ≡ false)
  pub removed :
      (m : Monitor)
      → In m gone ↔ (j : ℕ) × (lookup j t.monitors ≡ some m) × (has_expired now m ≡ true)

-- On a valid table `tick` does not panic; it removes exactly the monitors whose lease has run out
-- and leaves a valid table with exactly the others.
pub tick-Ticks :
    (t : SessionTable) (now : ℕ)
    → IsValid t
    → (gone : List Monitor) × (t' : SessionTable) × (tick t now ≡ some (gone, t'))
      × Ticks t now gone t'
unfolding tick
tick-Ticks t now v =
    let keyed : Keyed t.monitors = λ k m e. (v.monitors k m e).keyed in
    let (gone, t', q, v', left, went) =
      reap-IsValid t 0 (dead now (values t.monitors)) v
        (dead-Rising now 0 t.monitors v.sorted keyed)
        (λ j i. let (m, e, x) = dead-expired now 0 j t.monitors v.sorted keyed i in (m, e)) in
    (
      gone,
      t',
      q,
      record {
        valid = v';
        kept = λ j m. (
          λ e.
              let (e', out) = (left j m).0 e in
              (e', not_true (has_expired now m) (λ x. out ((listed t now j m v e').1 x))),
          λ p.
              (left j m).1
                (p.0, λ i. true-false (has_expired now m) ((listed t now j m v p.0).0 i) p.1),
        );
        removed = λ m. (
          λ h. let (j, i, e) = (went m).0 h in (j, e, (listed t now j m v e).0 i),
          λ x. (went m).1 (x.0, (listed t now x.0 m v x.1).1 x.2, x.1),
        );
      },
    )
  where
    not_true : (b : Bool) → b ≢ true → b ≡ false
    not_true true n = absurd (n refl)
    not_true false n = refl

    true-false : (b : Bool) → b ≡ true → ¬ (b ≡ false)
    true-false b p q = cc
