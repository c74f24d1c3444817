-- ===== src/Committed/Token/Moves.antt =====
-- What each access to the token of crates/luminal-vgd-driver/src/modepush.rs keeps.
use luminal_vgd.Prelude.{Bool, true, false, ◌||◌, ◌≡◌, ◌⊎◌, refl, ◌∙◌, ltb, arith}
use luminal_vgd.Committed.Token.{
  Shared, commit, departure, Pc, idle, acquiring, flagging, turned_away, writing_slots, releasing,
  offering, unflagging, wiping, handing_back, Move, begin, take, busy, flag, retry, give_up, leave,
  publish_slot, finish, count, free, refused, unflag, wipe, last_count, hand_back,
}

-- A thread that owns the token.
abbrev pub holds : Pc → Bool
holds (writing_slots job) = true
holds (releasing k) = true
holds (offering k) = true
holds (unflagging k) = true
holds (wiping k) = true
holds handing_back = true
holds _ = false

-- A writer that was turned away is remembered, or the record is clear.
abbrev pub IsHonest : Shared → Type 0
IsHonest m = m.dropped ≡ true → (m.contended || m.cleared) ≡ true

-- What a thread that owns the token knows.
abbrev pub Knows : Shared → Pc → Type 0
Knows m (writing_slots commit) = m.dropped ≡ true → m.contended ≡ true
Knows m (writing_slots departure) = IsHonest m
Knows m (releasing k) = (ltb k 4 ≡ true → m.cleared ≡ true) × IsHonest m
Knows m (offering k) = (ltb k 3 ≡ true → m.cleared ≡ true) × IsHonest m
Knows m handing_back = m.cleared ≡ true
Knows m _ = Unit {0}

-- What a thread that owns nothing does to a token that is held: it flags it at most.
pub record Flagged (m m' : Shared) : Type 0 where
  pub writing_same : m'.writing ≡ m.writing
  pub cleared_same : m'.cleared ≡ m.cleared
  pub contended_more : m.contended ≡ true → m'.contended ≡ true
  pub flagged : m'.dropped ≡ true → (m.dropped ≡ true) ⊎ (m'.contended ≡ true)

pub Move-Flagged :
    {m m' : Shared} {p p' : Pc} → Move m p m' p' → holds p ≡ false → m.writing ≡ true → Flagged m m'
Move-Flagged (begin job) empty held = ground arith
Move-Flagged (take job k unheld) empty held = cc
Move-Flagged (busy job k h) empty held = ground arith
Move-Flagged (flag job k h) empty held = ground arith
Move-Flagged (retry job k h) empty held = ground arith
Move-Flagged (give_up job) empty held = ground arith
Move-Flagged leave empty held = ground arith
Move-Flagged publish_slot empty held = cc
Move-Flagged (finish job) empty held = cc
Move-Flagged (count k) empty held = cc
Move-Flagged (free k h) empty held = cc
Move-Flagged (refused k h) empty held = cc
Move-Flagged (unflag k) empty held = cc
Move-Flagged (wipe k) empty held = cc
Move-Flagged last_count empty held = cc
Move-Flagged hand_back empty held = cc

Flagged-IsHonest : {m m' : Shared} → Flagged m m' → IsHonest m → IsHonest m'
Flagged-IsHonest f h = λ lost. ground (arith, f.cleared_same, f.contended_more, f.flagged lost, h)

pub Flagged-Knows : {m m' : Shared} → Flagged m m' → (q : Pc) → Knows m q → Knows m' q
Flagged-Knows f (writing_slots commit) k =
    λ lost. ground (arith, f.contended_more, f.flagged lost, k)
Flagged-Knows f (writing_slots departure) k = Flagged-IsHonest f k
Flagged-Knows f (releasing n) (k, h) = (λ few. f.cleared_same ∙ k few, Flagged-IsHonest f h)
Flagged-Knows f (offering n) (k, h) = (λ few. f.cleared_same ∙ k few, Flagged-IsHonest f h)
Flagged-Knows f handing_back k = f.cleared_same ∙ k
Flagged-Knows f idle k = tt
Flagged-Knows f (acquiring job n) k = tt
Flagged-Knows f (flagging job n) k = tt
Flagged-Knows f turned_away k = tt
Flagged-Knows f (unflagging n) k = tt
Flagged-Knows f (wiping n) k = tt

-- A free token is honest, and each move of an owner keeps what it has to know.
pub Move-Knows :
    {m m' : Shared} {p p' : Pc}
    → Move m p m' p'
    → (m.writing ≡ false → IsHonest m)
    → (holds p ≡ true → m.writing ≡ true)
    → Knows m p
    → Knows m' p'
Move-Knows (begin job) honest owns k = tt
Move-Knows (take commit n unheld) honest owns k = λ lost. cc
Move-Knows (take departure n unheld) honest owns k = honest unheld
Move-Knows (busy job n h) honest owns k = tt
Move-Knows (flag job n h) honest owns k = tt
Move-Knows (retry job n h) honest owns k = tt
Move-Knows (give_up job) honest owns k = tt
Move-Knows leave honest owns k = tt
Move-Knows publish_slot honest owns k = k
Move-Knows (finish commit) honest owns k = (λ few. cc, λ lost. ground (arith, k lost))
Move-Knows (finish departure) honest owns k = (λ few. cc, k)
Move-Knows (count n) honest owns (k, h) = (λ few. k (ground arith), h)
Move-Knows (free n h) honest owns k = tt
Move-Knows (refused n h) honest owns k = tt
Move-Knows (unflag n) honest owns k = tt
Move-Knows (wipe n) honest owns k = (λ few. refl, λ lost. ground arith)
Move-Knows last_count honest owns (k, h) = k refl
Move-Knows hand_back honest owns k = tt

-- A move that leaves the token free leaves it honest.
pub Move-IsHonest :
    {m m' : Shared} {p p' : Pc}
    → Move m p m' p'
    → (m.writing ≡ false → IsHonest m)
    → (holds p ≡ true → m.writing ≡ true)
    → Knows m p
    → m'.writing ≡ false
    → IsHonest m'
Move-IsHonest (begin job) honest owns k unheld = honest unheld
Move-IsHonest (take commit n h) honest owns k unheld = cc
Move-IsHonest (take departure n h) honest owns k unheld = cc
Move-IsHonest (busy job n h) honest owns k unheld = cc
Move-IsHonest (flag job n h) honest owns k unheld = λ lost. refl
Move-IsHonest (retry job n h) honest owns k unheld = honest unheld
Move-IsHonest (give_up job) honest owns k unheld = λ lost. refl
Move-IsHonest leave honest owns k unheld = honest unheld
Move-IsHonest publish_slot honest owns k unheld = cc (owns refl)
Move-IsHonest (finish job) honest owns k unheld = honest unheld
Move-IsHonest (count n) honest owns k unheld = honest unheld
Move-IsHonest (free n h) honest owns (k, keeps) unheld = λ lost. ground (arith, keeps lost)
Move-IsHonest (refused n h) honest owns k unheld = honest unheld
Move-IsHonest (unflag n) honest owns k unheld = cc (owns refl)
Move-IsHonest (wipe n) honest owns k unheld = λ lost. ground arith
Move-IsHonest last_count honest owns k unheld = honest unheld
Move-IsHonest hand_back honest owns k unheld = λ lost. k

pub Move-owns :
    {m m' : Shared} {p p' : Pc}
    → Move m p m' p'
    → (holds p ≡ true → m.writing ≡ true)
    → holds p' ≡ true
    → m'.writing ≡ true
Move-owns (begin job) owns h = cc
Move-owns (take commit n unheld) owns h = refl
Move-owns (take departure n unheld) owns h = refl
Move-owns (busy job n held) owns h = cc
Move-owns (flag job n held) owns h = cc
Move-owns (retry job n held) owns h = cc
Move-owns (give_up job) owns h = cc
Move-owns leave owns h = cc
Move-owns publish_slot owns h = owns refl
Move-owns (finish job) owns h = owns refl
Move-owns (count n) owns h = owns refl
Move-owns (free n held) owns h = cc
Move-owns (refused n held) owns h = owns refl
Move-owns (unflag n) owns h = owns refl
Move-owns (wipe n) owns h = owns refl
Move-owns last_count owns h = owns refl
Move-owns hand_back owns h = cc

-- The token is taken only where it is free.
pub Move-gains :
    {m m' : Shared} {p p' : Pc}
    → Move m p m' p'
    → holds p ≡ false
    → holds p' ≡ true
    → m.writing ≡ false
Move-gains (take job n unheld) empty h = unheld
Move-gains (begin job) empty h = cc
Move-gains (busy job n held) empty h = cc
Move-gains (flag job n held) empty h = cc
Move-gains (retry job n held) empty h = cc
Move-gains (give_up job) empty h = cc
Move-gains leave empty h = cc
Move-gains publish_slot empty h = cc
Move-gains (finish job) empty h = cc
Move-gains (count n) empty h = cc
Move-gains (free n held) empty h = cc
Move-gains (refused n held) empty h = cc
Move-gains (unflag n) empty h = cc
Move-gains (wipe n) empty h = cc
Move-gains last_count empty h = cc
Move-gains hand_back empty h = cc

pub Knows-nothing : (m : Shared) (q : Pc) → holds q ≡ false → Knows m q
Knows-nothing m idle empty = tt
Knows-nothing m (acquiring job n) empty = tt
Knows-nothing m (flagging job n) empty = tt
Knows-nothing m turned_away empty = tt
Knows-nothing m (writing_slots job) empty = cc
Knows-nothing m (releasing n) empty = cc
Knows-nothing m (offering n) empty = cc
Knows-nothing m (unflagging n) empty = tt
Knows-nothing m (wiping n) empty = tt
Knows-nothing m handing_back empty = cc
