-- ===== src/Prelude/Map.antt =====
-- The standard library's `BTreeMap` with numeric keys: an association list in ascending key order,
-- so that iteration visits the keys in order, as `BTreeMap`'s iterators do.
use Prim.Native.Nat.{ℕ, ◌<◌, ◌≤◌, suc}
use mathlib.Core.Path.{◌≡◌, refl}
use mathlib.Core.Logic.{inl, inr}
use mathlib.Core.List.{List, [], ◌∷◌}
use mathlib.Core.Option.{Option, none, some}
use native.Mathlib.Omega.{arith}
use luminal_vgd.Prelude.Tests.{ltb, ◌==◌, if◌then◌else◌, Bool-cases}
use luminal_vgd.Prelude.Lists.{length, In}

abbrev pub Map {ℓ} : Type ℓ → Type ℓ
Map V = List (ℕ × V)

module _ {ℓ} {V : Type ℓ} where
  -- `get`
  abbrev pub lookup : ℕ → Map V → Option V
  lookup k [] = none
  lookup k ((j, v) ∷ m) = if j == k then some v else lookup k m

  -- `insert`, which replaces the value of a key that is there
  abbrev pub insert : ℕ → V → Map V → Map V
  insert k v [] = (k, v) ∷ []
  insert k v ((j, w) ∷ m) =
      let rest = insert k v m in
      if ltb k j then (k, v) ∷ (j, w) ∷ m else if k == j then (k, v) ∷ m else (j, w) ∷ rest

  -- `remove`
  abbrev pub remove : ℕ → Map V → Map V
  remove k [] = []
  remove k ((j, w) ∷ m) = let rest = remove k m in if j == k then rest else (j, w) ∷ rest

  abbrev pub keys : Map V → List ℕ
  keys [] = []
  keys ((k, v) ∷ m) = k ∷ keys m

  abbrev pub values : Map V → List V
  values [] = []
  values ((k, v) ∷ m) = v ∷ values m

  -- Keys ascend, and lie at or above the bound.
  abbrev pub Ascending : ℕ → Map V → Type 0
  Ascending n [] = Unit {0}
  Ascending n ((k, v) ∷ m) = (n ≤ k) × Ascending (suc k) m

  pub lookup-insert :
      (k j : ℕ) (v : V) (m : Map V)
      → lookup j (insert k v m) ≡ (if k == j then some v else lookup j m)
  lookup-insert k j v [] = refl
  lookup-insert k j v ((i, w) ∷ m) = ground (arith, lookup-insert k j v m)

  pub lookup-remove :
      (k j : ℕ) (m : Map V) → lookup j (remove k m) ≡ (if k == j then none else lookup j m)
  lookup-remove k j [] = ground arith
  lookup-remove k j ((i, w) ∷ m) = ground (arith, lookup-remove k j m)

  pub Ascending-mono : (a b : ℕ) (m : Map V) → a ≤ b → Ascending b m → Ascending a m
  Ascending-mono a b [] h s = tt
  Ascending-mono a b ((k, v) ∷ m) h s = (omega arith, s.1)

  pub insert-Ascending :
      (n k : ℕ) (v : V) (m : Map V) → n ≤ k → Ascending n m → Ascending n (insert k v m)
  insert-Ascending n k v [] h s = (h, tt)
  insert-Ascending n k v ((j, w) ∷ m) h s =
      ground (arith, insert-Ascending (suc j) k v m, Ascending-mono (suc j) (suc k) m)

  pub remove-Ascending : (n k : ℕ) (m : Map V) → Ascending n m → Ascending n (remove k m)
  remove-Ascending n k [] s = tt
  remove-Ascending n k ((j, w) ∷ m) s =
      ground (arith, remove-Ascending (suc j) k m s.1, Ascending-mono n (suc j) (remove k m))

  -- Below the bound nothing is found.
  pub lookup-Ascending : (n k : ℕ) (m : Map V) → Ascending n m → k < n → lookup k m ≡ none
  lookup-Ascending n k [] s h = refl
  lookup-Ascending n k ((j, w) ∷ m) s h = ground (arith, lookup-Ascending (suc j) k m s.1)

  pub length-remove-le : (k : ℕ) (m : Map V) → length (remove k m) ≤ length m
  length-remove-le k [] = omega arith
  length-remove-le k ((j, w) ∷ m) = ground (arith, length-remove-le k m)

  pub length-insert_fresh :
      (k : ℕ) (v : V) (m : Map V) → lookup k m ≡ none → length (insert k v m) ≡ suc (length m)
  length-insert_fresh k v [] e = refl
  length-insert_fresh k v ((j, w) ∷ m) e = ground (arith, length-insert_fresh k v m)

  pub length-insert_old :
      (n k : ℕ) (old v : V) (m : Map V)
      → Ascending n m
      → lookup k m ≡ some old
      → length (insert k v m) ≡ length m
  length-insert_old n k old v [] s e = cc
  length-insert_old n k old v ((j, w) ∷ m) s e =
      ground (arith, length-insert_old (suc j) k old v m s.1, lookup-Ascending (suc j) k m s.1)

  pub length-insert-le : (k : ℕ) (v : V) (m : Map V) → length (insert k v m) ≤ suc (length m)
  length-insert-le k v [] = omega arith
  length-insert-le k v ((j, w) ∷ m) = ground (arith, length-insert-le k v m)

-- Keys and values of an ascending map, against its lookups.
module _ {V : Type 0} where
  pub lookup→In_keys : (k : ℕ) {v : V} (m : Map V) → lookup k m ≡ some v → In k (keys m)
  lookup→In_keys k [] e = cc
  lookup→In_keys k ((j, w) ∷ m) e = elim (Bool-cases (j == k)) [
    | inl same ↦ inl (ground arith)
    | inr other ↦ inr (lookup→In_keys k m (rw other at e))
  ]

  pub In-keys→lookup : (k : ℕ) (m : Map V) → In k (keys m) → (v : V) × (lookup k m ≡ some v)
  In-keys→lookup k [] h = absurd h
  In-keys→lookup k ((j, w) ∷ m) h = elim (Bool-cases (j == k)) [
    | inl same ↦ (w, rw same)
    | inr other ↦ elim h [
      | inl e ↦ ground arith
      | inr i ↦ let (v, e) = In-keys→lookup k m i in (v, rw other e)
    ]
  ]

  pub lookup→In_values : (k : ℕ) (v : V) (m : Map V) → lookup k m ≡ some v → In v (values m)
  lookup→In_values k v [] e = cc
  lookup→In_values k v ((j, w) ∷ m) e = elim (Bool-cases (j == k)) [
    | inl same ↦ inl (ground arith)
    | inr other ↦ inr (lookup→In_values k v m (rw other at e))
  ]

  pub In-values→lookup :
      (n : ℕ) (v : V) (m : Map V)
      → Ascending n m
      → In v (values m)
      → (k : ℕ) × (lookup k m ≡ some v) × (n ≤ k)
  In-values→lookup n v [] s h = absurd h
  In-values→lookup n v ((j, w) ∷ m) s (inl e) = (j, ground arith, s.0)
  In-values→lookup n v ((j, w) ∷ m) s (inr h) =
      let (k, e, above) = In-values→lookup (suc j) v m s.1 h in (k, ground arith, omega arith)
