-- ===== src/Adapter/Selection.antt =====
-- What `select_adapter` of crates/luminal-vgd-core/src/adapter.rs picks.
use luminal_vgd.Prelude.{
  ℕ, ◌≤◌, ◌≡◌, refl, ◌≢◌, ◌⊎◌, inl, inr, false, not, ◌&&◌, none, some, List, [], ◌∷◌, ◌==◌, ==_ne,
  arith, In, ◌∙◌, ap, sym, ok_or, if◌then◌else◌, ok, err, Bool-cases, Option-cases,
}
use luminal_vgd.Error.{Fallible, no_adapter}
use luminal_vgd.Adapter.{
  AdapterInfo, find_luid, hardware, is_greater, greatest, max_by_vram, select_adapter,
}

-- A hardware adapter of the list.
pub record IsHardware (adapters : List AdapterInfo) (a : AdapterInfo) : Type 0 where
  pub listed : In a adapters
  pub real : a.software ≡ false

-- `a` has at least the memory of `b`, and the smaller or the same LUID at a tie.
abbrev pub Beats : AdapterInfo → AdapterInfo → Type 0
Beats a b = (b.vram_bytes ≤ a.vram_bytes) × (a.vram_bytes ≡ b.vram_bytes → a.luid ≤ b.luid)

hardware_sound : (l : List AdapterInfo) (a : AdapterInfo) → In a (hardware l) → IsHardware l a
unfolding hardware
hardware_sound [] a h = absurd h
hardware_sound (x ∷ l) a h = ground (arith, hardware_sound l a)

hardware_complete : (l : List AdapterInfo) (a : AdapterInfo) → IsHardware l a → In a (hardware l)
unfolding hardware
hardware_complete [] a h = absurd h.listed
hardware_complete (x ∷ l) a h = elim h.listed [
  | inl e ↦ ground arith
  | inr m ↦ ground (arith, hardware_complete l a (record { listed = m; real = h.real }))
]

Beats-trans : (a b c : AdapterInfo) → Beats a b → Beats b c → Beats a c
Beats-trans a b c p q = ground arith

-- One step of the fold keeps one of the two, and it beats both.
better_lem :
    (x y : AdapterInfo)
    → let k = if is_greater x y then x else y in Beats k x × Beats k y × ((k ≡ x) ⊎ (k ≡ y))
unfolding is_greater
better_lem x y = elim (Bool-cases (is_greater x y)) [
  | inl e ↦ rw e (ground arith)
  | inr e ↦ rw e (ground arith)
]

greatest-Beats_first : (x : AdapterInfo) (l : List AdapterInfo) → Beats (greatest x l) x
unfolding greatest
greatest-Beats_first x [] = omega arith
greatest-Beats_first x (y ∷ l) =
    let k = if is_greater x y then x else y in
    Beats-trans (greatest k l) k x (greatest-Beats_first k l) (better_lem x y).0

greatest-Beats : (x y : AdapterInfo) (l : List AdapterInfo) → In y l → Beats (greatest x l) y
unfolding greatest
greatest-Beats x y [] h = absurd h
greatest-Beats x y (z ∷ l) (inl e) =
    let k = if is_greater x z then x else z in
    Beats-trans (greatest k l) k y (greatest-Beats_first k l) (rw e (better_lem x z).1)
greatest-Beats x y (z ∷ l) (inr h) = greatest-Beats (if is_greater x z then x else z) y l h

greatest-In : (x : AdapterInfo) (l : List AdapterInfo) → In (greatest x l) (x ∷ l)
unfolding greatest
greatest-In x [] = inl refl
greatest-In x (y ∷ l) =
    ground (arith, greatest-In (if is_greater x y then x else y) l, better_lem x y)

-- The adapter that the driver default stands for.
pub record IsBest (adapters : List AdapterInfo) (a : AdapterInfo) : Type 0 where
  pub eligible : IsHardware adapters a
  pub beats : (b : AdapterInfo) → IsHardware adapters b → Beats a b

-- The outcome of a selection by default: the best adapter, or none where there is no hardware.
abbrev pub ByDefault : List AdapterInfo → Fallible ℕ → Type 0
ByDefault adapters r =
    ((a : AdapterInfo) × (r ≡ ok a.luid) × IsBest adapters a)
    ⊎ ((r ≡ err no_adapter) × ((a : AdapterInfo) → ¬ IsHardware adapters a))

max_by_vram-IsBest :
    (l hs : List AdapterInfo) → hardware l ≡ hs → ByDefault l (ok_or (max_by_vram hs) no_adapter)
unfolding max_by_vram
max_by_vram-IsBest l [] e = inr (refl, λ a h. rw e at (hardware_complete l a h))
max_by_vram-IsBest l (x ∷ hs) e = inl (
  greatest x hs,
  refl,
  record {
    eligible = hardware_sound l (greatest x hs) (rw e (greatest-In x hs));
    beats = λ b h. all b (rw e at (hardware_complete l b h));
  },
)
  where
    all : (b : AdapterInfo) → In b (x ∷ hs) → Beats (greatest x hs) b
    all b (inl q) = rw q (greatest-Beats_first x hs)
    all b (inr m) = greatest-Beats x b hs m

-- With no adapter requested, the LUID of a hardware adapter of the list is selected that has the
-- most video memory, and the smallest LUID among those that have as much; the call fails with
-- `no_adapter` exactly where the list has no hardware adapter.
pub select_adapter-default :
    (adapters : List AdapterInfo) → ByDefault adapters (select_adapter adapters 0)
unfolding select_adapter
select_adapter-default adapters = max_by_vram-IsBest adapters (hardware adapters) refl

find_luid-none :
    (l : List AdapterInfo) (luid : ℕ) (a : AdapterInfo)
    → IsHardware l a
    → find_luid l luid ≡ none
    → a.luid ≢ luid
unfolding find_luid
find_luid-none [] luid a e h = absurd e.listed
find_luid-none (x ∷ l) luid a e h = elim e.listed [
  | inl q ↦ ground arith
  | inr m ↦ ground (arith, find_luid-none l luid a (record { listed = m; real = e.real }))
]

find_luid-some :
    (l : List AdapterInfo) (luid k : ℕ)
    → find_luid l luid ≡ some k
    → (a : AdapterInfo) × IsHardware l a × (a.luid ≡ luid) × (k ≡ luid)
unfolding find_luid
find_luid-some [] luid k h = cc
find_luid-some (x ∷ l) luid k h = elim (Bool-cases (x.luid == luid && not x.software)) [
  | inl hit ↦ (x, ground arith, ground arith, ground arith)
  | inr miss ↦
      let (a, i, p, q) = find_luid-some l luid k (rw miss at h) in
      (a, record { listed = inr i.listed; real = i.real }, p, q)
]

-- An explicit LUID is selected as it is where a hardware adapter of the list has it; otherwise the
-- call fails with `no_adapter`, and no other adapter is taken in its place.
pub select_adapter-explicit :
    (adapters : List AdapterInfo) (luid : ℕ)
    → luid ≢ 0
    → ((select_adapter adapters luid ≡ ok luid)
        × ((a : AdapterInfo) × IsHardware adapters a × (a.luid ≡ luid)))
      ⊎ ((select_adapter adapters luid ≡ err no_adapter)
          × ((a : AdapterInfo) → IsHardware adapters a → a.luid ≢ luid))
unfolding select_adapter
select_adapter-explicit adapters luid h = elim (Option-cases (find_luid adapters luid)) [
  | inl e ↦ inr (rw (==_ne luid 0 h, e) refl, λ a i. find_luid-none adapters luid a i e)
  | inr (k, e) ↦
      let (a, i, p, q) = find_luid-some adapters luid k e in
      inl (rw (==_ne luid 0 h, e) (ap ok q), (a, i, p))
]

-- Two enumerations of the same hardware adapters, in whatever order, give the same default.
pub select_adapter-order :
    (l k : List AdapterInfo)
    → ((a : AdapterInfo) → IsHardware l a → IsHardware k a)
    → ((a : AdapterInfo) → IsHardware k a → IsHardware l a)
    → select_adapter l 0 ≡ select_adapter k 0
select_adapter-order l k f g = go (select_adapter-default l) (select_adapter-default k)
  where
    go :
        ByDefault l (select_adapter l 0)
        → ByDefault k (select_adapter k 0)
        → select_adapter l 0 ≡ select_adapter k 0
    go (inl (a, p, x)) (inl (b, q, y)) =
        let down = x.beats b (g b y.eligible) in
        let up = y.beats a (f a x.eligible) in
        let tie : a.vram_bytes ≡ b.vram_bytes = omega (arith, down.0, up.0) in
        let same : a.luid ≡ b.luid = omega (arith, down.1 tie, up.1 (sym tie)) in
        p ∙ ap ok same ∙ sym q
    go (inl (a, p, x)) (inr (q, n)) = absurd (n a (f a x.eligible))
    go (inr (p, n)) (inl (b, q, y)) = absurd (n b (g b y.eligible))
    go (inr (p, n)) (inr (q, m)) = p ∙ sym q
