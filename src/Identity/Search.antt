-- ===== src/Identity/Search.antt =====
-- What the searches of `ConnectorTable::acquire` in crates/luminal-vgd-core/src/identity.rs find.
use luminal_vgd.Prelude.{
  ℕ, zero, suc, ◌+◌, ◌≤◌, ◌<◌, ◌≡◌, refl, sym, subst, inl, inr, true, false, none, some, List, [],
  ◌∷◌, arith, Bool-cases, In, contains, contains→In, not-contains→In, nat_eq, ltb, ◌==◌,
  if◌then◌else◌,
}
use luminal_vgd.Prelude.Map.{Map}
use luminal_vgd.Identity.{find_free, idle_keys, age_of, least_used, victim}

pub find_free-some :
    (used : List ℕ) (from n c : ℕ)
    → find_free used from n ≡ some c
    → (from ≤ c)
      × (c < from + n)
      × (contains used c ≡ false)
      × ((b : ℕ) → from ≤ b → b < c → In b used)
unfolding find_free
find_free-some used from zero c e = cc
find_free-some used from (suc n) c e = elim (Bool-cases (contains used from)) [
  | inr fresh ↦
      let same : from ≡ c = ground arith in
      (
        omega arith,
        omega arith,
        subst (λ k. contains used k ≡ false) same fresh,
        λ b low high. absurd (omega arith),
      )
  | inl hit ↦
      let (low, high, f, below) = find_free-some used (from + 1) n c (rw hit at e) in
      (omega arith, omega arith, f, λ b p q. between b p q hit below)
]
  where
    between :
        (b : ℕ)
        → from ≤ b
        → b < c
        → contains used from ≡ true
        → ((b : ℕ) → from + 1 ≤ b → b < c → In b used)
        → In b used
    between b p q hit below = elim (Bool-cases (from == b)) [
      | inl same ↦ subst (λ k. In k used) (ground arith) (contains→In used from hit)
      | inr other ↦ below b (ground arith) q
    ]

pub find_free-none :
    (used : List ℕ) (from n : ℕ)
    → find_free used from n ≡ none
    → (b : ℕ) → from ≤ b
    → b < from + n
    → In b used
unfolding find_free
find_free-none used from zero e b p q = absurd (omega arith)
find_free-none used from (suc n) e b p q = elim (Bool-cases (contains used from)) [
  | inr fresh ↦ ground arith
  | inl taken ↦ elim (Bool-cases (from == b)) [
    | inl same ↦ subst (λ k. In k used) (ground arith) (contains→In used from taken)
    | inr other ↦ find_free-none used (from + 1) n (rw taken at e) b (ground arith) (omega arith)
  ]
]

pub idle_keys_sound :
    (active ks : List ℕ) (d : ℕ) → In d (idle_keys active ks) → In d ks × ¬ In d active
unfolding idle_keys
idle_keys_sound active [] d h = absurd h
idle_keys_sound active (k ∷ ks) d h = elim (Bool-cases (contains active k)) [
  | inl live ↦ let (i, n) = idle_keys_sound active ks d (rw live at h) in (inr i, n)
  | inr idle ↦ elim (rw idle at h) [
    | inl e ↦ (inl e, subst (λ x. ¬ In x active) (sym e) (not-contains→In active k idle))
    | inr m ↦ let (i, n) = idle_keys_sound active ks d m in (inr i, n)
  ]
]

pub idle_keys_complete :
    (active ks : List ℕ) (d : ℕ) → In d ks → ¬ In d active → In d (idle_keys active ks)
unfolding idle_keys
idle_keys_complete active [] d h n = absurd h
idle_keys_complete active (k ∷ ks) d h n = elim (Bool-cases (contains active k)) [
  | inl live ↦ elim h [
    | inl e ↦ absurd (n (subst (λ x. In x active) (sym e) (contains→In active k live)))
    | inr m ↦ rw live (idle_keys_complete active ks d m n)
  ]
  | inr idle ↦ elim h [
    | inl e ↦ rw idle (inl e)
    | inr m ↦ rw idle (inr (idle_keys_complete active ks d m n))
  ]
]

-- The fold of `min_by_key` over the ages.
module _ (ages : Map ℕ) where
  least_used-In : (b : ℕ) (ds : List ℕ) → In (least_used ages b ds) (b ∷ ds)
  unfolding least_used
  least_used-In b [] = inl refl
  least_used-In b (d ∷ ds) =
      ground (arith, least_used-In (if ltb (age_of ages d) (age_of ages b) then d else b) ds)

  least_used-le : (b : ℕ) (ds : List ℕ) → age_of ages (least_used ages b ds) ≤ age_of ages b
  unfolding least_used
  least_used-le b [] = omega arith
  least_used-le b (d ∷ ds) =
      ground (arith, least_used-le (if ltb (age_of ages d) (age_of ages b) then d else b) ds)

  least_used-le_all :
      (b : ℕ) (ds : List ℕ) (d : ℕ) → In d ds → age_of ages (least_used ages b ds) ≤ age_of ages d
  unfolding least_used
  least_used-le_all b [] d h = absurd h
  least_used-le_all b (e ∷ ds) d (inl q) =
      ground (arith, least_used-le (if ltb (age_of ages e) (age_of ages b) then e else b) ds)
  least_used-le_all b (e ∷ ds) d (inr h) =
      least_used-le_all (if ltb (age_of ages e) (age_of ages b) then e else b) ds d h

  pub victim-some :
      (ds : List ℕ) (v : ℕ)
      → victim ages ds ≡ some v
      → In v ds × ((d : ℕ) → In d ds → age_of ages v ≤ age_of ages d)
  unfolding victim
  victim-some [] v e = cc
  victim-some (b ∷ ds) v e =
      let same : least_used ages b ds ≡ v = cc in
      subst (λ x. In x (b ∷ ds) × ((d : ℕ) → In d (b ∷ ds) → age_of ages x ≤ age_of ages d)) same
        (least_used-In b ds, least)
    where
      least : (d : ℕ) → In d (b ∷ ds) → age_of ages (least_used ages b ds) ≤ age_of ages d
      least d (inl q) = rw q (least_used-le b ds)
      least d (inr m) = least_used-le_all b ds d m

  pub victim-none : (ds : List ℕ) (d : ℕ) → victim ages ds ≡ none → ¬ In d ds
  unfolding victim
  victim-none [] d e h = h
  victim-none (b ∷ ds) d e h = cc
