-- ===== src/ModePush/Gate.antt =====
-- What `live_gate` of crates/luminal-vgd-driver/src/modepush.rs lets through.
use luminal_vgd.Prelude.{
  ℕ, ◌%◌, ◌^◌, ◌<◌, Bool, true, false, Option, none, some, List, [], ◌∷◌, ◌≡◌, ◌↔◌, refl, sym, ap,
  ◌∙◌, subst, inl, inr, In, contains, contains→In, In→contains, length, get_elem?, get_elem?-lt,
  In-get_elem?, arith, some-injective, Bool-cases, Option-cases,
}
use luminal_vgd.Modes.{Mode, mode_partial_eq}
use luminal_vgd.ModePush.{
  CommittedMode, is_mode, all_within, any_is, position, superset_index_of, LiveGate,
  evicts_committed, pushes, live_gate,
}

pub all_within_iff :
    (superset targets : List Mode)
    → (all_within superset targets ≡ true) ↔ ((x : Mode) → In x targets → In x superset)
unfolding all_within
all_within_iff superset [] = (λ e x i. absurd i, λ h. refl)
all_within_iff superset (m ∷ ms) = elim (Bool-cases (contains superset m)) [
  | inl here ↦ (
    λ e x i. elim i [
      | inl q ↦ subst (λ y. In y superset) (sym q) (contains→In superset m here)
      | inr j ↦ (all_within_iff superset ms).0 (rw (here, all_within) at e) x j
    ],
    λ h. rw (here, all_within) ((all_within_iff superset ms).1 (λ x i. h x (inr i))),
  )
  | inr missing ↦ (
    λ e. let never = rw (missing, all_within) at e in cc,
    λ h. let found = In→contains superset m (h m (inl refl)) in cc,
  )
]

abbrev pub Offers : CommittedMode → List Mode → Type 0
Offers c modes = (x : Mode) × (In x modes) × (is_mode c x ≡ true)

pub any_is_iff : (c : CommittedMode) (modes : List Mode) → (any_is c modes ≡ true) ↔ Offers c modes
unfolding any_is
any_is_iff c [] = (λ e. cc, λ h. absurd h.1)
any_is_iff c (m ∷ ms) = elim (Bool-cases (is_mode c m)) [
  | inl here ↦ (λ e. (m, inl refl, here), λ h. rw (here, any_is) refl)
  | inr other ↦ (
    λ e. let (x, i, q) = (any_is_iff c ms).0 (rw (other, any_is) at e) in (x, inr i, q),
    λ h. rw (other, any_is) ((any_is_iff c ms).1 (later h other)),
  )
]
  where
    later : Offers c (m ∷ ms) → is_mode c m ≡ false → Offers c ms
    later (x, inl q, y) other = absurd (clash x q y other)
      where
        clash : (x : Mode) → x ≡ m → is_mode c x ≡ true → is_mode c m ≡ false → ⊥
        clash x q y other = cc
    later (x, inr i, y) other = (x, i, y)

pub position-found :
    (c : CommittedMode) (modes : List Mode) (i : ℕ)
    → position c modes ≡ some i
    → (x : Mode) × (get_elem? modes i ≡ some x) × (is_mode c x ≡ true)
unfolding position
position-found c [] i e = cc
position-found c (m ∷ ms) i e = elim (Bool-cases (is_mode c m)) [
  | inl here ↦ (
    m,
    subst (λ k. get_elem? (m ∷ ms) k ≡ some m) (some-injective (rw (here, position) at e)) refl,
    here,
  )
  | inr other ↦ elim (Option-cases (position c ms)) [
    | inl gone ↦ let never = rw (other, gone, position) at e in cc
    | inr (j, found) ↦
        let (x, q, y) = position-found c ms j found in
        (
          x,
          subst (λ k. get_elem? (m ∷ ms) k ≡ some x)
              (some-injective (rw (other, found, position) at e)) q,
          y,
        )
  ]
]

position-missing :
    (c : CommittedMode) (modes : List Mode) → position c modes ≡ none → any_is c modes ≡ false
unfolding position any_is
position-missing c [] e = refl
position-missing c (m ∷ ms) e = elim (Bool-cases (is_mode c m)) [
  | inl here ↦ let never = rw (here, position) at e in cc
  | inr other ↦ elim (Option-cases (position c ms)) [
    | inl gone ↦ rw (other, any_is) (position-missing c ms gone)
    | inr (j, found) ↦ let never = rw (other, found, position) at e in cc
  ]
]

superset_index-found :
    (c : CommittedMode) (superset : List Mode) (i : ℕ)
    → length superset < 2 ^ 32
    → superset_index_of superset c ≡ some i
    → (x : Mode) × (get_elem? superset i ≡ some x) × (is_mode c x ≡ true)
unfolding superset_index_of
superset_index-found c superset i small e = elim (Option-cases (position c superset)) [
  | inl gone ↦ let never = rw (gone, superset_index_of) at e in cc
  | inr (j, found) ↦
      let (x, q, y) = position-found c superset j found in
      let below = get_elem?-lt superset j q in
      let wrapped : j % 2 ^ 32 ≡ i = some-injective (rw (found, superset_index_of) at e) in
      let same : j ≡ i = omega arith in (x, subst (λ k. get_elem? superset k ≡ some x) same q, y)
]

-- With a committed mode the list must still offer that mode, if the monitor describes it.
live_gate-committed_iff :
    (superset targets : List Mode) (c : CommittedMode)
    → (pushes (live_gate superset targets (some c)) ≡ true)
      ↔ ((x : Mode) → In x targets → In x superset) × (Offers c superset → Offers c targets)
unfolding live_gate pushes superset_index_of
live_gate-committed_iff superset targets c = elim (Bool-cases (all_within superset targets)) [
  | inr stray ↦ (
    λ e. let never = rw (stray, live_gate) at e in cc,
    λ h. let all = (all_within_iff superset targets).1 h.0 in cc,
  )
  | inl within ↦ elim (Option-cases (position c superset)) [
    | inl unknown ↦ (
      λ e. (
        (all_within_iff superset targets).0 within,
        λ o.
            let known = (any_is_iff c superset).1 o in
            let unseen = position-missing c superset unknown in absurd (differ _ known unseen),
      ),
      λ h. rw (within, unknown, live_gate, superset_index_of) refl,
    )
    | inr (i, known) ↦ elim (Bool-cases (any_is c targets)) [
      | inl kept ↦ (
        λ e. ((all_within_iff superset targets).0 within, λ o. (any_is_iff c targets).0 kept),
        λ h. rw (within, known, kept, live_gate, superset_index_of) refl,
      )
      | inr evicted ↦ (
        λ e. let never = rw (within, known, evicted, live_gate, superset_index_of) at e in cc,
        λ h.
            let (x, q, y) = position-found c superset i known in
            absurd
              (differ _ ((any_is_iff c targets).1 (h.1 (x, In-get_elem? superset i q, y))) evicted),
      )
    ]
  ]
]
  where
    differ : (b : Bool) → b ≡ true → ¬ (b ≡ false)
    differ b p q = cc

live_gate-uncommitted_iff :
    (superset targets : List Mode)
    → (pushes (live_gate superset targets none) ≡ true)
      ↔ ((x : Mode) → In x targets → In x superset)
unfolding live_gate pushes
live_gate-uncommitted_iff superset targets = elim (Bool-cases (all_within superset targets)) [
  | inr stray ↦ (
    λ e. let never = rw (stray, live_gate) at e in cc,
    λ h. let all = (all_within_iff superset targets).1 h in cc,
  )
  | inl within ↦ (λ e. (all_within_iff superset targets).0 within, λ h. rw (within, live_gate) refl)
]

-- A list may be pushed at a live monitor exactly where the monitor describes each of its modes and,
-- if there is a committed mode and the monitor describes it, where the list still offers that mode.
pub live_gate-pushes_iff :
    (superset targets : List Mode) (committed : Option CommittedMode)
    → (pushes (live_gate superset targets committed) ≡ true)
      ↔ ((x : Mode) → In x targets → In x superset)
        × ((c : CommittedMode) → committed ≡ some c → Offers c superset → Offers c targets)
live_gate-pushes_iff superset targets none =
    let both = live_gate-uncommitted_iff superset targets in
    (λ e. (both.0 e, λ c q o. cc), λ h. both.1 h.0)
live_gate-pushes_iff superset targets (some d) =
    let both = live_gate-committed_iff superset targets d in
    (
      λ e.
          let (within, kept) = both.0 e in
          (
            within,
            λ c q. subst (λ x. Offers x superset → Offers x targets) (some-injective q) kept,
          ),
      λ h. both.1 (h.0, h.1 d refl),
    )

-- A refusal for the committed mode names it: the index is that of a mode the monitor describes with
-- the committed size and rate, and the refused list offers no such mode.
pub live_gate-evicts :
    (superset targets : List Mode) (c d : CommittedMode) (i : ℕ)
    → length superset < 2 ^ 32
    → live_gate superset targets (some c) ≡ evicts_committed d i
    → (d ≡ c)
      × ((x : Mode) × (get_elem? superset i ≡ some x) × (is_mode c x ≡ true))
      × (¬ Offers c targets)
unfolding live_gate
live_gate-evicts superset targets c d i small e = elim (Bool-cases (all_within superset targets)) [
  | inr stray ↦ let never = rw (stray, live_gate) at e in cc
  | inl within ↦ elim (Option-cases (superset_index_of superset c)) [
    | inl unknown ↦ let never = rw (within, unknown, live_gate) at e in cc
    | inr (j, known) ↦ elim (Bool-cases (any_is c targets)) [
      | inl kept ↦ let never = rw (within, known, kept, live_gate) at e in cc
      | inr evicted ↦
          let e' : evicts_committed c j ≡ evicts_committed d i =
            rw (within, known, evicted, live_gate) at e in
          (
            sym (ap committed_of e'),
            superset_index-found c superset i small (known ∙ ap some (ap index_of e')),
            λ o. differ _ ((any_is_iff c targets).1 o) evicted,
          )
    ]
  ]
]
  where
    committed_of : LiveGate → CommittedMode
    committed_of (evicts_committed a b) = a
    committed_of _ = c

    index_of : LiveGate → ℕ
    index_of (evicts_committed a b) = b
    index_of _ = i

    differ : (b : Bool) → b ≡ true → ¬ (b ≡ false)
    differ b p q = cc
