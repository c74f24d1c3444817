-- ===== src/Identity/Connectors.antt =====
-- Which connector `ConnectorTable::acquire` of crates/luminal-vgd-core/src/identity.rs gives.
use luminal_vgd.Prelude.{
  ℕ, ◌≤◌, ◌<◌, ◌≡◌, ◌≢◌, inl, inr, Option, none, some, List, arith, Option-cases, In,
}
use luminal_vgd.Prelude.Map.{
  Map, lookup, insert, remove, keys, values, In-values→lookup, lookup→In_keys, In-keys→lookup,
}
use luminal_vgd.Identity.{
  ConnectorTable, reserve, find_free, idle_keys, age_of, victim, evict, claim_evicted, claim,
  acquire, next_age_of,
}
use luminal_vgd.Identity.Table.{IsValid, unused}
use luminal_vgd.Identity.Search.{
  find_free-some, find_free-none, idle_keys_sound, idle_keys_complete, victim-some, victim-none,
}

-- Some identity has the connector.
pub record Taken (m : Map ℕ) (c : ℕ) : Type 0 where
  pub holder : ℕ
  pub held : lookup holder m ≡ some c

-- The four outcomes for the identity `d`, where `active` have a live monitor, in a table with the
-- reservations `m` and the ages `ages`. Each says which reservations the table has after the call.
pub data Acquires (limit : ℕ) (m ages : Map ℕ) (d : ℕ) (active : List ℕ)
    : Option ℕ → Map ℕ → Type 0 where
  -- a reservation is used again
  reuses : (c : ℕ) → lookup d m ≡ some c → Acquires limit m ages d active (some c) m
  -- the lowest connector that nobody has
  claims :
      (c : ℕ)
      → lookup d m ≡ none
      → c < limit
      → ((e : ℕ) → lookup e m ≢ some c)
      → ((b : ℕ) → b < c → Taken m b)
      → Acquires limit m ages d active (some c) (insert d c m)
  -- the connector of the identity without a monitor that was used the longest ago
  evicts :
      (v c : ℕ)
      → lookup d m ≡ none
      → ((b : ℕ) → b < limit → Taken m b)
      → lookup v m ≡ some c
      → ¬ In v active
      → ((u k : ℕ) → lookup u m ≡ some k → ¬ In u active → age_of ages v ≤ age_of ages u)
      → Acquires limit m ages d active (some c) (insert d c (remove v m))
  -- every connector belongs to an identity with a monitor
  refuses :
      lookup d m ≡ none
      → ((b : ℕ) → b < limit → Taken m b)
      → ((u k : ℕ) → lookup u m ≡ some k → ¬ ¬ In u active)
      → Acquires limit m ages d active none m

taken :
    (t : ConnectorTable) (c : ℕ) → IsValid t → In c (values t.reservations) → Taken t.reservations c
taken t c v h =
    let (k, e, above) = In-values→lookup 0 c t.reservations v.sorted h in
    record { holder = k; held = e }

module _ (t : ConnectorTable) (d : ℕ) (active : List ℕ) (v : IsValid t) where
  abbrev Outcome : Option ℕ × ConnectorTable → Type 0
  Outcome r = Acquires t.max_connectors t.reservations t.last_used d active r.0 r.1.reservations

  abbrev Full : Type 0
  Full = (b : ℕ) → b < t.max_connectors → Taken t.reservations b

  -- An eviction, where all connectors are taken.
  claim_evicted-Outcome :
      (age : ℕ)
      → lookup d t.reservations ≡ none
      → Full
      → Outcome
          (claim_evicted t d age (victim t.last_used (idle_keys active (keys t.reservations))))
  unfolding claim_evicted evict reserve
  claim_evicted-Outcome age new full =
      let ks = keys t.reservations in
      elim (Option-cases (victim t.last_used (idle_keys active ks))) [
        | inl e ↦ rw e (
            refuses new full (λ u k h n.
              victim-none t.last_used _ u e
                (idle_keys_complete active ks u (lookup→In_keys u t.reservations h) n)))
        | inr (u, e) ↦
            let (here, least) = victim-some t.last_used _ u e in
            let (key, idle) = idle_keys_sound active ks u here in
            let (c, found) = In-keys→lookup u t.reservations key in
            rw (e, found, claim_evicted, evict)
              (evicts u c new full found idle (λ w k h n.
                least w (idle_keys_complete active ks w (lookup→In_keys w t.reservations h) n)))
      ]

  claim-Outcome : (age : ℕ) → lookup d t.reservations ≡ none → Outcome (claim t d active age)
  unfolding claim reserve
  claim-Outcome age new =
      let used = values t.reservations in
      elim (Option-cases (find_free used 0 t.max_connectors)) [
        | inl e ↦
            rw (e, claim)
              (claim_evicted-Outcome age new (λ b h.
                taken t b v
                  (find_free-none used 0 t.max_connectors e b (omega arith) (omega arith))))
        | inr (c, e) ↦
            let (low, high, fresh, below) = find_free-some used 0 t.max_connectors c e in
            rw (e, claim)
              (claims c new (omega arith) (unused t.reservations c fresh)
                (λ b h. taken t b v (below b (omega arith) h)))
      ]

pub acquire-Acquires :
    (t : ConnectorTable) (d : ℕ) (active : List ℕ)
    → IsValid t
    → Acquires t.max_connectors t.reservations t.last_used d active
        (acquire t d active).0
        ((acquire t d active).1.reservations)
unfolding acquire
acquire-Acquires t d active v = elim (Option-cases (lookup d t.reservations)) [
  | inr (c, e) ↦ rw (e, acquire) (reuses c e)
  | inl e ↦
      rw (e, acquire)
        (claim-Outcome (record t { next_age = next_age_of t.next_age }) d active v t.next_age e)
]
