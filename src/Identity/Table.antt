-- ===== src/Identity/Table.antt =====
-- The invariant of `ConnectorTable` in crates/luminal-vgd-core/src/identity.rs.
use luminal_vgd.Prelude.{
  ℕ, ◌<◌, ◌≡◌, ◌≢◌, inl, inr, false, some, List, [], ◌∷◌, arith, Bool-cases, contains,
  not-contains→In, nat_eq, ltb,
}
use luminal_vgd.Prelude.Map.{
  Map, lookup, insert, remove, values, Ascending, lookup-insert, lookup-remove, insert-Ascending,
  remove-Ascending, lookup→In_values,
}
use luminal_vgd.Identity.{ConnectorTable, new, reserve, restore_one, restore, release}

-- Reservations: every connector exists, and no two identities share one.
pub record AreApart (limit : ℕ) (m : Map ℕ) : Type 0 where
  pub sorted : Ascending 0 m
  pub in_range : (d c : ℕ) → lookup d m ≡ some c → c < limit
  pub apart : (d e c : ℕ) → lookup d m ≡ some c → lookup e m ≡ some c → d ≡ e

abbrev pub IsValid : ConnectorTable → Type 0
IsValid t = AreApart t.max_connectors t.reservations

-- A connector that no identity has may be given to any.
pub insert-AreApart :
    (limit d c : ℕ) (m : Map ℕ)
    → c < limit
    → ((e : ℕ) → lookup e m ≢ some c)
    → AreApart limit m
    → AreApart limit (insert d c m)
insert-AreApart limit d c m b n v = record {
  sorted = insert-Ascending 0 d c m (omega arith) v.sorted;
  in_range = λ e k h. ground (arith, lookup-insert d e c m, v.in_range e k);
  apart = λ e f k h g.
      ground (arith, lookup-insert d e c m, lookup-insert d f c m, v.apart e f k, n e, n f);
}

pub remove-AreApart : (limit d : ℕ) (m : Map ℕ) → AreApart limit m → AreApart limit (remove d m)
remove-AreApart limit d m v = record {
  sorted = remove-Ascending 0 d m v.sorted;
  in_range = λ e k h. ground (arith, lookup-remove d e m, v.in_range e k);
  apart = λ e f k h g. ground (arith, lookup-remove d e m, lookup-remove d f m, v.apart e f k);
}

pub unused : (m : Map ℕ) (c : ℕ) → contains (values m) c ≡ false → (e : ℕ) → lookup e m ≢ some c
unused m c h e q = not-contains→In (values m) c h (lookup→In_values e c m q)

restore_one-IsValid : (t : ConnectorTable) (d c : ℕ) → IsValid t → IsValid (restore_one t d c)
unfolding restore_one reserve
restore_one-IsValid t d c v = elim (Bool-cases (ltb c t.max_connectors)) [
  | inr far ↦ rw far v
  | inl near ↦ elim (Bool-cases (contains (values t.reservations) c)) [
    | inl used ↦ rw (near, used) v
    | inr fresh ↦
        rw (near, fresh)
          (insert-AreApart t.max_connectors d c t.reservations (ground arith)
            (unused t.reservations c fresh) v)
  ]
]

-- Whatever entries are read back from storage, restoring them leaves a table in which every
-- connector exists and no two identities share one.
pub restore-IsValid :
    (t : ConnectorTable) (entries : List (ℕ × ℕ)) → IsValid t → IsValid (restore t entries)
unfolding restore
restore-IsValid t [] v = v
restore-IsValid t ((d, c) ∷ rest) v =
    restore-IsValid (restore_one t d c) rest (restore_one-IsValid t d c v)

pub release-IsValid : (t : ConnectorTable) (d : ℕ) → IsValid t → IsValid (release t d)
unfolding release
release-IsValid t d v = remove-AreApart t.max_connectors d t.reservations v

pub new-IsValid : (n : ℕ) → IsValid (new n)
unfolding new
new-IsValid n = record { sorted = tt; in_range = λ d c h. cc; apart = λ d e c h g. cc }
