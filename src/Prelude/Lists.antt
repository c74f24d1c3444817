-- ===== src/Prelude/Lists.antt =====
-- Lists measured and indexed by native numbers, under the library's names, and membership as a
-- predicate by recursion.
use Prim.Native.Nat.{ℕ, zero, suc, ◌+◌, ◌≤◌, ◌<◌}
use mathlib.Core.Path.{◌≡◌, refl, ap, sym, subst}
use mathlib.Core.Logic.{◌≢◌, ◌⊎◌, inl, inr}
use mathlib.Core.Bool.{Bool, true, false, ◌||◌}
use mathlib.Core.List.{List, [], ◌∷◌, ◌++◌}
use mathlib.Core.Option.{Option, none, some}
use native.Mathlib.Omega.{arith}
use luminal_vgd.Prelude.Tests.{Eq, Bool-cases, ◌==◌, if◌then◌else◌}

module _ {ℓ} {A : Type ℓ} where
  abbrev pub length : List A → ℕ
  length [] = 0
  length (x ∷ xs) = suc (length xs)

  abbrev pub get_elem? : List A → ℕ → Option A
  get_elem? [] i = none
  get_elem? (x ∷ xs) zero = some x
  get_elem? (x ∷ xs) (suc i) = get_elem? xs i

  abbrev pub set : List A → ℕ → A → List A
  set [] i v = []
  set (x ∷ xs) zero v = v ∷ xs
  set (x ∷ xs) (suc i) v = x ∷ set xs i v

  abbrev pub take : ℕ → List A → List A
  take zero xs = []
  take (suc n) [] = []
  take (suc n) (x ∷ xs) = x ∷ take n xs

  -- `&xs[..n]`, which panics beyond the end: that is none.
  abbrev pub slice_to : List A → ℕ → Option (List A)
  slice_to xs zero = some []
  slice_to [] (suc n) = none
  slice_to (x ∷ xs) (suc n) = elim (slice_to xs n) [ none ↦ none | some ys ↦ some (x ∷ ys) ]

  -- `xs[i] = v`, which panics beyond the end: that is none.
  abbrev pub put_at : List A → ℕ → A → Option (List A)
  put_at [] i v = none
  put_at (x ∷ xs) zero v = some (v ∷ xs)
  put_at (x ∷ xs) (suc i) v = elim (put_at xs i v) [ none ↦ none | some ys ↦ some (x ∷ ys) ]

  abbrev pub drop : ℕ → List A → List A
  drop zero xs = xs
  drop (suc n) [] = []
  drop (suc n) (x ∷ xs) = drop n xs

  abbrev pub replicate : ℕ → A → List A
  replicate zero a = []
  replicate (suc n) a = a ∷ replicate n a

  pub length-append : (xs ys : List A) → length (xs ++ ys) ≡ length xs + length ys
  length-append [] ys = omega arith
  length-append (x ∷ xs) ys = omega (arith, length-append xs ys)

  pub length-set : (xs : List A) (i : ℕ) (v : A) → length (set xs i v) ≡ length xs
  length-set [] i v = refl
  length-set (x ∷ xs) zero v = refl
  length-set (x ∷ xs) (suc i) v = ap suc (length-set xs i v)

  pub slice_to-some :
      (xs : List A) (n : ℕ) → n ≤ length xs → (ys : List A) × (slice_to xs n ≡ some ys)
  slice_to-some xs zero h = ([], refl)
  slice_to-some [] (suc n) h = absurd (omega arith)
  slice_to-some (x ∷ xs) (suc n) h =
      let (ys, e) = slice_to-some xs n (omega arith) in (x ∷ ys, rw e refl)

  pub put_at-some :
      (xs : List A) (i : ℕ) (v : A)
      → i < length xs
      → (ys : List A) × (put_at xs i v ≡ some ys) × (length ys ≡ length xs)
  put_at-some [] i v h = absurd (omega arith)
  put_at-some (x ∷ xs) zero v h = (v ∷ xs, refl, refl)
  put_at-some (x ∷ xs) (suc i) v h =
      let (ys, e, same) = put_at-some xs i v (omega arith) in
      (x ∷ ys, rw e refl, ap (λ n. suc n) same)

  pub length-replicate : (n : ℕ) (a : A) → length (replicate n a) ≡ n
  length-replicate zero a = refl
  length-replicate (suc n) a = ap suc (length-replicate n a)

  pub length-take : (n : ℕ) (xs : List A) → n ≤ length xs → length (take n xs) ≡ n
  length-take zero xs h = refl
  length-take (suc n) [] h = absurd (omega arith)
  length-take (suc n) (x ∷ xs) h = omega (arith, length-take n xs)

  pub take-append-drop : (n : ℕ) (xs : List A) → take n xs ++ drop n xs ≡ xs
  take-append-drop zero xs = refl
  take-append-drop (suc n) [] = refl
  take-append-drop (suc n) (x ∷ xs) = rw (take-append-drop n xs)

  pub get_elem?-set_self :
      (xs : List A) (i : ℕ) (v : A) → i < length xs → get_elem? (set xs i v) i ≡ some v
  get_elem?-set_self [] i v h = elim h [ ]
  get_elem?-set_self (x ∷ xs) zero v h = refl
  get_elem?-set_self (x ∷ xs) (suc i) v h = get_elem?-set_self xs i v (omega arith)

  pub get_elem?-set_ne :
      (xs : List A) {i j : ℕ} (v : A) → i ≢ j → get_elem? (set xs i v) j ≡ get_elem? xs j
  get_elem?-set_ne [] v h = refl
  get_elem?-set_ne (x ∷ xs) {i = zero} {j = zero} v h = absurd (h refl)
  get_elem?-set_ne (x ∷ xs) {i = zero} {j = suc j} v h = refl
  get_elem?-set_ne (x ∷ xs) {i = suc i} {j = zero} v h = refl
  get_elem?-set_ne (x ∷ xs) {i = suc i} {j = suc j} v h = get_elem?-set_ne xs v (λ e. h (ap suc e))

  pub get_elem?-set :
      (xs : List A) (i j : ℕ) (v : A)
      → i < length xs
      → get_elem? (set xs i v) j ≡ (if i == j then some v else get_elem? xs j)
  get_elem?-set [] i j v h = elim h [ ]
  get_elem?-set (x ∷ xs) zero zero v h = ground arith
  get_elem?-set (x ∷ xs) zero (suc j) v h = ground arith
  get_elem?-set (x ∷ xs) (suc i) zero v h = ground arith
  get_elem?-set (x ∷ xs) (suc i) (suc j) v h = ground (arith, get_elem?-set xs i j v)

  pub get_elem?-lt : (xs : List A) (i : ℕ) {a : A} → get_elem? xs i ≡ some a → i < length xs
  get_elem?-lt [] i e = cc
  get_elem?-lt (x ∷ xs) zero e = omega arith
  get_elem?-lt (x ∷ xs) (suc i) e = omega (arith, get_elem?-lt xs i e)

-- Membership and distinctness, by recursion.
module _ {A : Type 0} where
  abbrev pub In : A → List A → Type 0
  In a [] = ⊥
  In a (x ∷ xs) = (a ≡ x) ⊎ In a xs

  abbrev pub Distinct : List A → Type 0
  Distinct [] = Unit {0}
  Distinct (x ∷ xs) = (¬ In x xs) × Distinct xs

  pub In-append_left : (a : A) (xs ys : List A) → In a xs → In a (xs ++ ys)
  In-append_left a [] ys h = absurd h
  In-append_left a (x ∷ xs) ys (inl e) = inl e
  In-append_left a (x ∷ xs) ys (inr h) = inr (In-append_left a xs ys h)

  pub In-append_right : (a : A) (xs ys : List A) → In a ys → In a (xs ++ ys)
  In-append_right a [] ys h = h
  In-append_right a (x ∷ xs) ys h = inr (In-append_right a xs ys h)

  pub In-append_cases : (a : A) (xs ys : List A) → In a (xs ++ ys) → In a xs ⊎ In a ys
  In-append_cases a [] ys h = inr h
  In-append_cases a (x ∷ xs) ys (inl e) = inl (inl e)
  In-append_cases a (x ∷ xs) ys (inr h) = elim (In-append_cases a xs ys h) [
    | inl l ↦ inl (inr l)
    | inr r ↦ inr r
  ]

  -- Adding a new element at the end keeps a list distinct.
  pub Distinct-snoc : (xs : List A) (a : A) → Distinct xs → ¬ In a xs → Distinct (xs ++ a ∷ [])
  Distinct-snoc [] a d n = ((λ h. h), tt)
  Distinct-snoc (x ∷ xs) a d n = (fresh, Distinct-snoc xs a d.1 (λ h. n (inr h)))
    where
      fresh : ¬ In x (xs ++ a ∷ [])
      fresh h = elim (In-append_cases x xs (a ∷ []) h) [
        | inl l ↦ d.0 l
        | inr (inl e) ↦ n (inl (sym e))
        | inr (inr z) ↦ z
      ]

  pub Distinct-middle : (xs : List A) (a : A) (ys : List A) → Distinct (xs ++ a ∷ ys) → ¬ In a xs
  Distinct-middle [] a ys d h = h
  Distinct-middle (x ∷ xs) a ys d (inl e) = d.0 (In-append_right x xs (a ∷ ys) (inl (sym e)))
  Distinct-middle (x ∷ xs) a ys d (inr h) = Distinct-middle xs a ys d.1 h

  pub In-get_elem? : (xs : List A) (i : ℕ) {a : A} → get_elem? xs i ≡ some a → In a xs
  In-get_elem? [] i e = cc
  In-get_elem? (x ∷ xs) zero e = inl (cc)
  In-get_elem? (x ∷ xs) (suc i) e = inr (In-get_elem? xs i e)

module _ {ℓ κ} {A : Type ℓ} (P : A → Type κ) where
  abbrev pub All : List A → Type κ
  All [] = Unit {κ}
  All (x ∷ xs) = P x × All xs

module _ {κ} {A : Type 0} (P : A → Type κ) where
  pub All-snoc : (xs : List A) (a : A) → All P xs → P a → All P (xs ++ a ∷ [])
  All-snoc [] a h p = (p, tt)
  All-snoc (x ∷ xs) a h p = (h.0, All-snoc xs a h.1 p)

  pub All-In : (xs : List A) (a : A) → All P xs → In a xs → P a
  All-In [] a h m = absurd m
  All-In (x ∷ xs) a h (inl e) = subst P (sym e) h.0
  All-In (x ∷ xs) a h (inr m) = All-In xs a h.1 m

  pub All-of_In : (xs : List A) → ((a : A) → In a xs → P a) → All P xs
  All-of_In [] f = tt
  All-of_In (x ∷ xs) f = (f x (inl refl), All-of_In xs (λ a m. f a (inr m)))

-- `slice::contains`.
module _ {A : Type 0} ⦃e : Eq A⦄ where
  unfoldable pub contains : List A → A → Bool
  contains [] a = false
  contains (x ∷ xs) a = e.beq a x || contains xs a

  pub contains→In : (xs : List A) (a : A) → contains xs a ≡ true → In a xs
  unfolding contains
  contains→In [] a h = cc
  contains→In (x ∷ xs) a h = elim (Bool-cases (e.beq a x)) [
    | inl same ↦ inl ((e.beq_iff a x).0 same)
    | inr other ↦ inr (contains→In xs a (rw other at h))
  ]

  pub In→contains : (xs : List A) (a : A) → In a xs → contains xs a ≡ true
  unfolding contains
  In→contains [] a h = absurd h
  In→contains (x ∷ xs) a (inl same) = rw ((e.beq_iff a x).1 same)
  In→contains (x ∷ xs) a (inr h) = ground (arith, In→contains xs a h)

  pub not-contains→In : (xs : List A) (a : A) → contains xs a ≡ false → ¬ In a xs
  not-contains→In xs a h m = cc (In→contains xs a m)

  pub not-In→contains : (xs : List A) (a : A) → ¬ In a xs → contains xs a ≡ false
  not-In→contains xs a n = elim (Bool-cases (contains xs a)) [
    | inl h ↦ absurd (n (contains→In xs a h))
    | inr h ↦ h
  ]
