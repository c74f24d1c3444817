-- ===== src/Committed/Seqlock/Reading.antt =====
-- What a bounded read of a slot of crates/luminal-vgd-driver/src/modepush.rs reports.
use luminal_vgd.Prelude.{
  ℕ, ◌%◌, false, none, some, List, ◌≡◌, ◌≢◌, ap, sym, subst, ◌∙◌, inl, inr, Bool-cases, ◌==◌,
  if◌then◌else◌, some-injective, arith,
}
use luminal_vgd.ModePush.{CommittedMode}
use luminal_vgd.Committed.{CommittedSlot, Loads, still, publish, torn, payload, read}
use luminal_vgd.Committed.Sequential.{payload-publish}
use luminal_vgd.Committed.Seqlock.{
  idle, World, start, Stores, here, next, Round, loads, Rounds, done, round, WasPublished,
}
use luminal_vgd.Committed.Seqlock.Coherence.{
  Agrees, IsCoherent, Stores-IsCoherent, start-IsCoherent, Stores-count, Stores-unmoved, even-idle,
}

Stores-append : {w v u : World} → Stores w v → Stores v u → Stores w u
Stores-append r here = r
Stores-append r (next q s) = next (Stores-append r q) s

-- A round that is not discarded saw one world, at rest.
round-at_rest :
    {w u : World} (r : Round w u)
    → IsCoherent w
    → torn (loads r) ≡ false
    → (r.first.phase ≡ idle) × (loads r ≡ still r.first.slot)
unfolding torn
round-at_rest {w} {u} r c whole =
    let c1 = Stores-IsCoherent r.begun c in
    let to_third = Stores-append r.to_second r.to_third in
    let to_fourth = Stores-append to_third r.to_fourth in
    let to_end = Stores-append to_fourth r.ended in
    let cu = Stores-IsCoherent to_end c1 in
    let even : r.first.slot.version % 2 ≡ 0 = ground arith in
    let again : u.slot.version ≡ r.first.slot.version = ground arith in
    let resting = even-idle c1 even in
    let same : u.count ≡ r.first.count =
      omega (arith, c1.counted, cu.counted, again, r.brief, Stores-count to_end) in
    let fourth : r.fourth.count ≡ r.first.count =
      omega (arith, Stores-count to_fourth, Stores-count r.ended) in
    let third : r.third.count ≡ r.first.count =
      omega (arith, Stores-count to_third, Stores-count r.to_fourth) in
    let second : r.second.count ≡ r.first.count =
      omega (arith, Stores-count r.to_second, Stores-count r.to_third) in
    let e2 = Stores-unmoved r.to_second resting second in
    let e3 = Stores-unmoved to_third resting third in
    let e4 = Stores-unmoved to_fourth resting fourth in
    let eu = Stores-unmoved to_end resting same in (resting, cc (e2, e3, e4, eu))

payload-same :
    (s t : CommittedSlot)
    → s.monitor ≡ t.monitor
    → s.size ≡ t.size
    → s.refresh_millihz ≡ t.refresh_millihz
    → payload (still s) ≡ payload (still t)
unfolding payload
payload-same s t m z r = ground arith

payload-published :
    (w : World)
    → IsCoherent w
    → w.phase ≡ idle
    → payload (still w.slot) ≡ (if w.published.0 == 0 then none else some w.published)
unfolding publish
payload-published w c resting =
    let (m, mode) = w.published in
    let (_, held) = subst (Agrees w) resting c.agrees in
    payload-same w.slot (publish m mode w.slot) held.0 held.1 held.2
    ∙ payload-publish m mode w.slot c.fits.0 c.fits.1

-- A round that is not discarded reports what was published at its beginning.
round-published :
    {w u : World} (r : Round w u)
    → IsCoherent w
    → torn (loads r) ≡ false
    → (r.first.phase ≡ idle)
      × (payload (loads r) ≡ (if r.first.published.0 == 0 then none else some r.first.published))
round-published r c whole =
    let (resting, same) = round-at_rest r c whole in
    (resting, ap payload same ∙ payload-published r.first (Stores-IsCoherent r.begun c) resting)

Round-Stores : {w u : World} → Round w u → Stores w u
Round-Stores r =
    Stores-append r.begun
      (Stores-append r.to_second (Stores-append r.to_third (Stores-append r.to_fourth r.ended)))

earlier :
    {w v : World} {m : ℕ} {mode : CommittedMode}
    → Stores w v
    → WasPublished v m mode
    → WasPublished w m mode
earlier s p = record {
  when = p.when;
  reached = Stores-append s p.reached;
  resting = p.resting;
  was = p.was;
  real = p.real;
}

if-some :
    (p : ℕ × CommittedMode) (m : ℕ) (mode : CommittedMode)
    → (if p.0 == 0 then none else some p) ≡ some (m, mode)
    → (p ≡ (m, mode)) × (m ≢ 0)
if-some (k, kept) m mode e = elim (Bool-cases (k == 0)) [
  | inl empty ↦ let never = rw empty at e in cc
  | inr other ↦
      let same = some-injective (rw other at e) in
      (same, λ zero_m. ground (arith, ap (λ q. q.0) same))
]

published-first :
    {w u : World} {m : ℕ} {mode : CommittedMode} (r : Round w u)
    → r.first.phase ≡ idle
    → (if r.first.published.0 == 0 then none else some r.first.published) ≡ some (m, mode)
    → WasPublished w m mode
published-first {m = m} {mode = mode} r resting reported =
    let found = if-some r.first.published m mode reported in
    record { when = r.first; reached = r.begun; resting = resting; was = found.0; real = found.1 }

Rounds-published :
    {w u : World} {rounds : List Loads} {m : ℕ} {mode : CommittedMode}
    → Rounds w rounds u
    → IsCoherent w
    → read rounds ≡ some (m, mode)
    → WasPublished w m mode
unfolding read
Rounds-published done c found = cc
Rounds-published (round {w} {v} {u} {l} {rest} r e more) c found = elim (Bool-cases (torn l)) [
  | inl bad ↦
      let found' = rw (bad, read) at found in
      earlier (Round-Stores r) (Rounds-published more (Stores-IsCoherent (Round-Stores r) c) found')
  | inr whole ↦
      let found' = rw (whole, read) at found in
      let whole' = rw e at whole in
      let (resting, reported) = round-published r c whole' in
      let reported' = sym reported ∙ ap payload (sym e) ∙ found' in
      published-first r resting reported'
]

-- However the stores of commits fall between and around the loads of a bounded read, from a fresh
-- slot on: what the read reports was published whole, its monitor, size and refresh rate in one
-- commit, at a moment when nothing was being written. The slot is not rewritten 2 ^ 31 times while
-- one round lasts.
pub read-WasPublished :
    {w u : World} {rounds : List Loads} {m : ℕ} {mode : CommittedMode}
    → Stores start w
    → Rounds w rounds u
    → read rounds ≡ some (m, mode)
    → WasPublished w m mode
read-WasPublished s r found = Rounds-published r (Stores-IsCoherent s start-IsCoherent) found
