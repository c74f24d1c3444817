-- ===== src/Identity/Retention.antt =====
-- What `ConnectorTable::acquire` of crates/luminal-vgd-core/src/identity.rs leaves behind: the
-- invariant, the reservation it gives, and those it keeps.
use luminal_vgd.Prelude.{ℕ, ◌<◌, ◌≡◌, subst, ◌∙◌, ◌≢◌, Option, some, List, arith, In}
use luminal_vgd.Prelude.Map.{Map, lookup, remove, lookup-insert, lookup-remove}
use luminal_vgd.Identity.{ConnectorTable, reserve, evict, claim_evicted, claim, acquire}
use luminal_vgd.Identity.Table.{IsValid, AreApart, insert-AreApart, remove-AreApart}
use luminal_vgd.Identity.Connectors.{Acquires, reuses, claims, evicts, refuses, acquire-Acquires}

module _ {limit : ℕ} {m ages : Map ℕ} {d : ℕ} {active : List ℕ} where
  Acquires-AreApart :
      {o : Option ℕ} {m' : Map ℕ}
      → AreApart limit m
      → Acquires limit m ages d active o m'
      → AreApart limit m'
  Acquires-AreApart v (reuses c e) = v
  Acquires-AreApart v (claims c n b f l) = insert-AreApart limit d c m b f v
  Acquires-AreApart v (evicts u c n full found idle l) =
      insert-AreApart limit d c (remove u m) (v.in_range u c found)
        (λ e h. ground (arith, lookup-remove u e m, v.apart u e c found))
        (remove-AreApart limit u m v)
  Acquires-AreApart v (refuses n full l) = v

  Acquires-given :
      {o : Option ℕ} {m' : Map ℕ} (c : ℕ)
      → Acquires limit m ages d active o m'
      → o ≡ some c
      → lookup d m' ≡ some c
  Acquires-given c (reuses k e) h = e ∙ h
  Acquires-given c (claims k n b f l) h = ground (arith, lookup-insert d d k m)
  Acquires-given c (evicts u k n full found idle l) h =
      ground (arith, lookup-insert d d k (remove u m))
  Acquires-given c (refuses n full l) h = cc

  Acquires-keeps :
      {o : Option ℕ} {m' : Map ℕ} (e c : ℕ)
      → Acquires limit m ages d active o m'
      → In e active
      → lookup e m ≡ some c
      → lookup e m' ≡ some c
  Acquires-keeps e c (reuses k q) i h = h
  Acquires-keeps e c (claims k n b f l) i h = ground (arith, lookup-insert d e k m)
  Acquires-keeps e c (evicts u k n full found idle l) i h =
      let other : e ≢ u = λ q. idle (subst (λ x. In x active) q i) in
      ground (arith, lookup-insert d e k (remove u m), lookup-remove u e m)
  Acquires-keeps e c (refuses n full l) i h = h

-- The number of connectors is fixed.
pub max_connectors-acquire :
    (t : ConnectorTable) (d : ℕ) (active : List ℕ)
    → (acquire t d active).1.max_connectors ≡ t.max_connectors
unfolding acquire claim claim_evicted evict reserve
max_connectors-acquire t d active = ground arith

-- `acquire` keeps the table valid.
pub acquire-IsValid :
    (t : ConnectorTable) (d : ℕ) (active : List ℕ) → IsValid t → IsValid (acquire t d active).1
acquire-IsValid t d active v =
    rw (max_connectors-acquire t d active) (Acquires-AreApart v (acquire-Acquires t d active v))

-- The connector that `acquire` answers with exists, and is from then on the reservation of the
-- identity.
pub acquire-given :
    (t : ConnectorTable) (d : ℕ) (active : List ℕ) (c : ℕ)
    → IsValid t
    → (acquire t d active).0 ≡ some c
    → (c < t.max_connectors) × (lookup d (acquire t d active).1.reservations ≡ some c)
acquire-given t d active c v e =
    let given = Acquires-given c (acquire-Acquires t d active v) e in
    let w = acquire-IsValid t d active v in
    (rw (max_connectors-acquire t d active) at (w.in_range d c given), given)

-- An identity with a live monitor keeps its connector whoever acquires one.
pub acquire-keeps_active :
    (t : ConnectorTable) (d : ℕ) (active : List ℕ) (e c : ℕ)
    → IsValid t
    → In e active
    → lookup e t.reservations ≡ some c
    → lookup e (acquire t d active).1.reservations ≡ some c
acquire-keeps_active t d active e c v i h = Acquires-keeps e c (acquire-Acquires t d active v) i h
