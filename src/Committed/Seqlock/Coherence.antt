-- ===== src/Committed/Seqlock/Coherence.antt =====
-- What holds between any two accesses to a slot of crates/luminal-vgd-driver/src/modepush.rs.
use luminal_vgd.Prelude.{ℕ, ◌+◌, ◌%◌, ◌^◌, ◌<◌, ◌≤◌, ◌≡◌, refl, ap, subst, ◌∙◌, arith}
use luminal_vgd.ModePush.{CommittedMode}
use luminal_vgd.Committed.{CommittedSlot, pack_size}
use luminal_vgd.Committed.Seqlock.{
  Phase, idle, opened, monitor_stored, size_stored, refresh_stored, World, start, Store, opening,
  monitor, size, refresh, closing, Stores, here, next,
}

abbrev pub FitsMode : CommittedMode → Type 0
FitsMode mode = (mode.width < 2 ^ 32) × (mode.height < 2 ^ 32)

abbrev pub HasPayload : CommittedSlot → ℕ → CommittedMode → Type 0
HasPayload s m mode =
    (s.monitor ≡ m) × (s.size ≡ pack_size mode) × (s.refresh_millihz ≡ mode.refresh_millihz)

-- A write is under way, from the version that was loaded.
abbrev pub IsOpen : World → ℕ → CommittedMode → Type 0
IsOpen w v mode =
    (w.count % 2 ≡ 1) × (w.slot.version ≡ (v + 1) % 2 ^ 32) × (v < 2 ^ 32) × FitsMode mode

abbrev pub Agrees : World → Phase → Type 0
Agrees w idle = (w.count % 2 ≡ 0) × HasPayload w.slot w.published.0 w.published.1
Agrees w (opened v m mode) = IsOpen w v mode
Agrees w (monitor_stored v m mode) = IsOpen w v mode × (w.slot.monitor ≡ m)
Agrees w (size_stored v m mode) =
    IsOpen w v mode × (w.slot.monitor ≡ m) × (w.slot.size ≡ pack_size mode)
Agrees w (refresh_stored v m mode) = IsOpen w v mode × HasPayload w.slot m mode

pub record IsCoherent (w : World) : Type 0 where
  pub counted : w.slot.version ≡ w.count % 2 ^ 32
  pub fits : FitsMode w.published.1
  pub agrees : Agrees w w.phase

Store-IsCoherent : {w u : World} → Store w u → IsCoherent w → IsCoherent u
Store-IsCoherent (opening w m mode at width height) c =
    let a = subst (Agrees w) at c.agrees in ground (arith, c.counted, c.fits)
Store-IsCoherent (monitor w v m mode at) c = let a = subst (Agrees w) at c.agrees in ground arith
Store-IsCoherent (size w v m mode at) c = let a = subst (Agrees w) at c.agrees in ground arith
Store-IsCoherent (refresh w v m mode at) c = let a = subst (Agrees w) at c.agrees in ground arith
Store-IsCoherent (closing w v m mode at) c = let a = subst (Agrees w) at c.agrees in ground arith

pub Stores-IsCoherent : {w u : World} → Stores w u → IsCoherent w → IsCoherent u
Stores-IsCoherent here c = c
Stores-IsCoherent (next r s) c = Store-IsCoherent s (Stores-IsCoherent r c)

pub start-IsCoherent : IsCoherent start
start-IsCoherent = omega arith

Store-count : {w u : World} → Store w u → w.count ≤ u.count
Store-count (opening w m mode at width height) = omega arith
Store-count (monitor w v m mode at) = omega arith
Store-count (size w v m mode at) = omega arith
Store-count (refresh w v m mode at) = omega arith
Store-count (closing w v m mode at) = omega arith

pub Stores-count : {w u : World} → Stores w u → w.count ≤ u.count
Stores-count here = omega arith
Stores-count (next r s) = omega (arith, Stores-count r, Store-count s)

-- Where nothing is being written, the first store is counted.
Store-idle : {w u : World} → Store w u → w.phase ≡ idle → w.count < u.count
Store-idle (opening w m mode at width height) resting = omega arith
Store-idle (monitor w v m mode at) resting = cc
Store-idle (size w v m mode at) resting = cc
Store-idle (refresh w v m mode at) resting = cc
Store-idle (closing w v m mode at) resting = omega arith

-- A count that has not moved means that nothing has.
pub Stores-unmoved : {w u : World} → Stores w u → w.phase ≡ idle → u.count ≡ w.count → u ≡ w
Stores-unmoved here resting same = refl
Stores-unmoved (next {v = v} r s) resting same =
    let unmoved = Stores-unmoved r resting (omega (arith, Stores-count r, Store-count s)) in
    let resting' : v.phase ≡ idle = ap (λ (x : World). x.phase) unmoved ∙ resting in
    absurd (omega (arith, Store-idle s resting', Stores-count r))

-- A version that is even belongs to no write.
pub even-idle : {w : World} → IsCoherent w → w.slot.version % 2 ≡ 0 → w.phase ≡ idle
even-idle {w} c even =
    elim w.phase as (λ p. Agrees w p → p ≡ idle) [
      | idle ↦ λ a. refl
      | opened v m mode ↦ λ a. absurd (omega (arith, c.counted))
      | monitor_stored v m mode ↦ λ a. absurd (omega (arith, c.counted))
      | size_stored v m mode ↦ λ a. absurd (omega (arith, c.counted))
      | refresh_stored v m mode ↦ λ a. absurd (omega (arith, c.counted))
    ]
      c.agrees
