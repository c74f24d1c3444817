-- ===== src/ModePush/Commits.antt =====
-- Pushes at a parked monitor, committed signals and the preferred mode index of
-- crates/luminal-vgd-driver/src/modepush.rs.
use luminal_vgd.Prelude.{
  ℕ, zero, suc, ◌+◌, ◌*◌, ◌/◌, ◌%◌, ◌^◌, ◌<◌, ◌≤◌, true, false, ◌||◌, some, List, [], ◌∷◌, ltb, min,
  ◌==◌, ◌≡◌, ◌≢◌, ◌↔◌, refl, ◌∙◌, subst, inl, inr, In, contains, contains→In, In→contains, length,
  take, get_elem?, arith, Bool-cases,
}
use native.Mathlib.Nat.{div-eq_of_eq-mul_left}
use luminal_vgd.Proto.{u32_max}
use luminal_vgd.Modes.{Mode, mode_partial_eq}
use luminal_vgd.ModePush.{
  from_rate, from_signal, all_within, commits, parked_push, first_offered,
  preferred_monitor_mode_idx,
}
use luminal_vgd.ModePush.Gate.{all_within_iff}

-- A push at a parked monitor is applied exactly where its list has a mode, and the monitor
-- describes each of them; lists are shorter than 2^32.
pub parked_push-commits_iff :
    (superset targets : List Mode)
    → length targets < 2 ^ 32
    → (commits (parked_push superset targets) ≡ true)
      ↔ (targets ≢ []) × ((x : Mode) → In x targets → In x superset)
unfolding parked_push commits
parked_push-commits_iff superset [] small = (λ e. cc, λ h. absurd (h.0 refl))
parked_push-commits_iff superset (m ∷ ms) small =
    let some_left : (length (m ∷ ms) % 2 ^ 32 == 0) ≡ false = ground arith in
    elim (Bool-cases (all_within superset (m ∷ ms))) [
      | inl within ↦ (
        λ e. (λ q. cc, (all_within_iff superset (m ∷ ms)).0 within),
        λ h. rw (some_left, within, parked_push) refl,
      )
      | inr stray ↦ (
        λ e. let never = rw (some_left, stray, parked_push) at e in cc,
        λ h. let all = (all_within_iff superset (m ∷ ms)).1 h.1 in cc,
      )
    ]

-- A signal whose vertical rate is any fraction equal to `rate` / 1000 gives the mode of that rate.
pub from_signal-recovers :
    (width height num den rate : ℕ)
    → 0 < width
    → 0 < height
    → 0 < den
    → 0 < rate
    → rate ≤ u32_max
    → num * 1000 < 2 ^ 64
    → num * 1000 ≡ rate * den
    → from_signal width height num den
      ≡ some (record { width = width; height = height; refresh_millihz = rate })
unfolding from_signal from_rate
from_signal-recovers width height num den rate w h d r fits small e =
    let q : num * 1000 / den ≡ rate = div-eq_of_eq-mul_left d e in
    let tests : ((width == 0) || (height == 0) || (den == 0)) ≡ false = ground arith in
    let fits64 : ltb (num * 1000) (2 ^ 64) ≡ true = ground arith in
    let fits32 : (rate == 0 || ltb u32_max rate) ≡ false = ground arith in
    rw (tests, fits64, q, fits32, from_signal, from_rate) refl

first_offered-In :
    (targets modes : List Mode) (limit i : ℕ) (x : Mode)
    → i + length modes < 2 ^ 32
    → In x (take limit modes)
    → In x targets
    → (k : ℕ) × (y : Mode) × (first_offered targets modes limit i ≡ i + k)
      × (k < limit)
      × (get_elem? modes k ≡ some y)
      × In y targets
unfolding first_offered
first_offered-In targets modes zero i x small h g = absurd h
first_offered-In targets [] (suc limit) i x small h g = absurd h
first_offered-In targets (m ∷ ms) (suc limit) i x small h g =
    elim (Bool-cases (contains targets m)) [
      | inl offered ↦ (
        0,
        m,
        rw (offered, first_offered) (omega arith),
        omega arith,
        refl,
        contains→In targets m offered,
      )
      | inr other ↦ elim h [
        | inl q ↦ absurd (clash m x q (In→contains targets x g) other)
        | inr j ↦
            let (k, y, e, below, at_k, y_in) =
              first_offered-In targets ms limit (i + 1) x (omega arith) j g in
            (suc k, y, rw (other, first_offered) (e ∙ omega arith), omega arith, at_k, y_in)
      ]
    ]
  where
    clash : (m x : Mode) → x ≡ m → contains targets x ≡ true → ¬ (contains targets m ≡ false)
    clash m x q a b = cc

In-take-length : (n : ℕ) (x : Mode) (ms : List Mode) → In x (take n ms) → In x (take (length ms) ms)
In-take-length zero x ms h = absurd h
In-take-length (suc n) x [] h = h
In-take-length (suc n) x (m ∷ ms) (inl e) = inl e
In-take-length (suc n) x (m ∷ ms) (inr h) = inr (In-take-length n x ms h)

within_length :
    (n : ℕ) (x : Mode) (ms : List Mode) → In x (take n ms) → In x (take (min n (length ms)) ms)
within_length n x ms h = elim (Bool-cases (ltb n (length ms))) [
  | inl below ↦
      let cut : n ≡ min n (length ms) = ground arith in subst (λ k. In x (take k ms)) cut h
  | inr whole ↦
      let cut : length ms ≡ min n (length ms) = ground arith in
      subst (λ k. In x (take k ms)) cut (In-take-length n x ms h)
]

-- Where a mode that the list offers is among the first `fill` monitor modes, the preferred index is
-- below `fill` and names a monitor mode that the list offers; the monitor has fewer than 2^32
-- modes.
pub preferred_monitor_mode_idx-offered :
    (monitor_modes targets : List Mode) (fill : ℕ) (x : Mode)
    → length monitor_modes < 2 ^ 32
    → In x (take fill monitor_modes)
    → In x targets
    → (y : Mode) × (preferred_monitor_mode_idx monitor_modes targets fill < fill)
      × (get_elem? monitor_modes (preferred_monitor_mode_idx monitor_modes targets fill) ≡ some y)
      × In y targets
unfolding preferred_monitor_mode_idx
preferred_monitor_mode_idx-offered modes targets fill x small h g =
    let limit = min fill (length modes) in
    let (k, y, e, below, at_k, y_in) =
      first_offered-In targets modes limit 0 x (omega arith) (within_length fill x modes h) g in
    let same : first_offered targets modes limit 0 ≡ k = e ∙ omega arith in
    (
      y,
      rw (same, preferred_monitor_mode_idx) (omega arith),
      rw (same, preferred_monitor_mode_idx) at_k,
      y_in,
    )
