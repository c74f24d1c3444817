-- ===== src/Committed/Sequential.antt =====
-- A commit and a departure in crates/luminal-vgd-driver/src/modepush.rs, as the record reads
-- afterwards.
use luminal_vgd.Prelude.{
  ℕ, zero, suc, ◌+◌, ◌*◌, ◌/◌, ◌%◌, ◌^◌, ◌<◌, false, Option, none, some, List, [], ◌∷◌, ◌≡◌, ◌≢◌,
  refl, ◌∙◌, inl, inr, Bool-cases, ◌==◌, if◌then◌else◌, length, take, arith,
}
use luminal_vgd.ModePush.{CommittedMode}
use luminal_vgd.Committed.{
  CommittedSlot, CommittedPaths, publish, clear, no_mode, still, torn, payload, read, read_still,
  record_paths, holds_monitor, forget_slots, mode_if, or_else, find_mode, apply, forget, get,
  max_committed_paths,
}

-- No slot is being written.
abbrev pub AllStable : List CommittedSlot → Type 0
AllStable [] = Unit
AllStable (s ∷ slots) = (s.version % 2 ≡ 0) × AllStable slots

-- The fields of the modes have 32 bits.
abbrev pub AllFit : List (ℕ × CommittedMode) → Type 0
AllFit [] = Unit
AllFit ((m, mode) ∷ paths) = (mode.width < 2 ^ 32) × (mode.height < 2 ^ 32) × AllFit paths

-- The mode of a monitor among the paths of a commit.
unfoldable pub mode_of : ℕ → List (ℕ × CommittedMode) → Option CommittedMode
mode_of monitor [] = none
mode_of monitor ((m, mode) ∷ paths) = if m == monitor then some mode else mode_of monitor paths

torn-still : (s : CommittedSlot) → s.version % 2 ≡ 0 → torn (still s) ≡ false
unfolding torn
torn-still s stable = ground arith

read-still : (s : CommittedSlot) → s.version % 2 ≡ 0 → read_still s ≡ payload (still s)
unfolding read read_still
read-still s stable = rw (torn-still s stable) refl

publish-stable :
    (monitor : ℕ) (mode : CommittedMode) (s : CommittedSlot)
    → s.version % 2 ≡ 0
    → (publish monitor mode s).version % 2 ≡ 0
unfolding publish
publish-stable monitor mode s stable = omega arith

pub payload-publish :
    (monitor : ℕ) (mode : CommittedMode) (slot : CommittedSlot)
    → mode.width < 2 ^ 32
    → mode.height < 2 ^ 32
    → payload (still (publish monitor mode slot))
      ≡ (if monitor == 0 then none else some (monitor, mode))
unfolding publish payload
payload-publish monitor mode slot w h =
    let width : (mode.width * 2 ^ 32 % 2 ^ 64 + mode.height) / 2 ^ 32 % 2 ^ 32 ≡ mode.width =
      omega arith in
    let height : (mode.width * 2 ^ 32 % 2 ^ 64 + mode.height) % 2 ^ 32 ≡ mode.height =
      omega arith in
    rw (width, height) refl

read-publish :
    (monitor : ℕ) (mode : CommittedMode) (slot : CommittedSlot)
    → slot.version % 2 ≡ 0
    → mode.width < 2 ^ 32
    → mode.height < 2 ^ 32
    → read_still (publish monitor mode slot) ≡ (if monitor == 0 then none else some (monitor, mode))
read-publish monitor mode slot stable w h =
    read-still _ (publish-stable monitor mode slot stable) ∙ payload-publish monitor mode slot w h

read-clear : (s : CommittedSlot) → s.version % 2 ≡ 0 → read_still (clear s) ≡ none
unfolding clear
read-clear s stable = read-publish 0 no_mode s stable (omega arith) (omega arith)

mode_of-take_nil : (monitor n : ℕ) → mode_of monitor (take n []) ≡ none
unfolding mode_of
mode_of-take_nil monitor zero = refl
mode_of-take_nil monitor (suc n) = refl

find-record_paths :
    (slots : List CommittedSlot) (paths : List (ℕ × CommittedMode)) (monitor : ℕ)
    → AllStable slots
    → AllFit paths
    → monitor ≢ 0
    → find_mode monitor (record_paths slots paths).0 ≡ mode_of monitor (take (length slots) paths)
unfolding find_mode record_paths mode_of
find-record_paths [] paths monitor stable fit real = refl
find-record_paths (s ∷ slots) [] monitor stable fit real =
    rw (read-clear s stable.0) (
      find-record_paths slots [] monitor stable.1 tt real ∙ mode_of-take_nil monitor (length slots))
find-record_paths (s ∷ slots) ((m, mode) ∷ paths) monitor stable fit real =
    let rest = find-record_paths slots paths monitor stable.1 fit.2 real in
    ground (arith, read-publish m mode s stable.0 fit.0 fit.1, read-clear s stable.0, rest)

dropped : ℕ → Option (ℕ × CommittedMode) → Option (ℕ × CommittedMode)
dropped gone o = if holds_monitor gone o then none else o

read-forgotten :
    (gone : ℕ) (s : CommittedSlot)
    → s.version % 2 ≡ 0
    → read_still (if holds_monitor gone (read_still s) then clear s else s)
      ≡ dropped gone (read_still s)
unfolding dropped
read-forgotten gone s stable = elim (Bool-cases (holds_monitor gone (read_still s))) [
  | inl held ↦ rw held (read-clear s stable)
  | inr other ↦ rw other refl
]

mode_if-dropped :
    (gone monitor : ℕ) (o : Option (ℕ × CommittedMode)) (rest : Option CommittedMode)
    → or_else (mode_if monitor (dropped gone o)) (if monitor == gone then none else rest)
      ≡ (if monitor == gone then none else or_else (mode_if monitor o) rest)
unfolding dropped
mode_if-dropped gone monitor none rest = refl
mode_if-dropped gone monitor (some (m, mode)) rest = ground arith

find-forget_slots :
    (slots : List CommittedSlot) (gone monitor : ℕ)
    → AllStable slots
    → find_mode monitor (forget_slots gone slots)
      ≡ (if monitor == gone then none else find_mode monitor slots)
unfolding find_mode forget_slots
find-forget_slots [] gone monitor stable = ground arith
find-forget_slots (s ∷ slots) gone monitor stable =
    let rest = find-forget_slots slots gone monitor stable.1 in
    rw (read-forgotten gone s stable.0, rest)
      (mode_if-dropped gone monitor (read_still s) (find_mode monitor slots))

record_paths-stable :
    (slots : List CommittedSlot) (paths : List (ℕ × CommittedMode))
    → AllStable slots
    → AllStable (record_paths slots paths).0
unfolding record_paths clear
record_paths-stable [] paths stable = tt
record_paths-stable (s ∷ slots) [] stable =
    (publish-stable 0 no_mode s stable.0, record_paths-stable slots [] stable.1)
record_paths-stable (s ∷ slots) ((m, mode) ∷ paths) stable =
    let rest = record_paths-stable slots paths stable.1 in
    ground (arith, rest, publish-stable m mode s stable.0, publish-stable 0 no_mode s stable.0)

-- After a commit, with nobody else at the record: a monitor has the mode of its first path among
-- those that the slots hold, and a monitor with no path there has none, whatever was recorded
-- before. Once a monitor is forgotten it has no mode, and every other monitor keeps its own.
pub get-apply :
    (c : CommittedPaths) (paths : List (ℕ × CommittedMode)) (active_total gone monitor : ℕ)
    → AllStable c.slots
    → length c.slots ≡ max_committed_paths
    → AllFit paths
    → monitor ≢ 0
    → gone ≢ 0
    → let c' = (apply paths active_total c).0 in
      (get monitor c' ≡ mode_of monitor (take max_committed_paths paths))
      × (get monitor (forget gone c') ≡ (if monitor == gone then none else get monitor c'))
unfolding apply get forget
get-apply c paths active_total gone monitor stable full fit real real' =
    let committed = find-record_paths c.slots paths monitor stable fit real in
    let forgotten =
      find-forget_slots (record_paths c.slots paths).0 gone monitor
        (record_paths-stable c.slots paths stable) in
    let committed' = rw full at committed in ground (arith, committed', forgotten)
