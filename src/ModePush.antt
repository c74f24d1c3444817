-- ===== src/ModePush.antt =====
-- crates/luminal-vgd-driver/src/modepush.rs: whether a mode update may be pushed at a monitor, and
-- what the push reports.
pub mod Gate
pub mod Commits
use luminal_vgd.Prelude.{
  ℕ, zero, suc, ◌+◌, ◌*◌, ◌/◌, ◌%◌, ◌^◌, Bool, true, false, not, ◌&&◌, ◌||◌, Option, none, some,
  List, [], ◌∷◌, ltb, ◌==◌, if◌then◌else◌, contains, length, min,
}
use luminal_vgd.Prelude.Int.{ℤ}
use luminal_vgd.Proto.{u32_max}
use luminal_vgd.Proto.Err
use luminal_vgd.Modes.{Mode, mode_partial_eq}
use luminal_vgd.Session.State.{ModeUpdateResult}
use luminal_vgd.Session.State

abbrev stage_empty : ℕ
stage_empty = 1

abbrev stage_not_in_superset : ℕ
stage_not_in_superset = 9

pub record CommittedMode : Type 0 where
  pub width : ℕ
  pub height : ℕ
  pub refresh_millihz : ℕ

pub data PushOutcome : Type 0 where
  -- `Applied` and `AppliedParked` with `published` and `superset`
  applied : ℕ → ℕ → PushOutcome
  applied_parked : ℕ → ℕ → PushOutcome
  -- with `stage` and `count`
  deferred : ℕ → ℕ → PushOutcome
  -- with `committed`, `superset_idx`, `token` and `count`
  blocked : CommittedMode → ℕ → ℕ → ℕ → PushOutcome
  -- with `stage`, `code`, `count` and `rolled_back`
  failed : ℕ → ℤ → ℕ → Bool → PushOutcome

unfoldable pub commits : PushOutcome → Bool
commits (applied published superset) = true
commits (applied_parked published superset) = true
commits _ = false

unfoldable pub settle_result : PushOutcome → ModeUpdateResult
settle_result (blocked committed superset_idx token count) = State.blocked superset_idx token
settle_result o = if commits o then State.applied else State.not_applied

unfoldable pub retryable : PushOutcome → Bool
retryable (blocked committed superset_idx token count) = false
retryable _ = true

-- `targets.iter().all(|m| superset.contains(m))`
unfoldable pub all_within : List Mode → List Mode → Bool
all_within superset [] = true
all_within superset (m ∷ ms) = contains superset m && all_within superset ms

unfoldable pub parked_push : List Mode → List Mode → PushOutcome
parked_push parked_superset targets =
    let count = length targets % 2 ^ 32 in
    if count == 0
    then failed stage_empty Err.bad_mode 0 false
    else if not (all_within parked_superset targets)
    then failed stage_not_in_superset Err.bad_mode count false
    else applied_parked count (length parked_superset % 2 ^ 32)

-- `is`: on the three fields a signal block carries
unfoldable pub is_mode : CommittedMode → Mode → Bool
is_mode c m = m.width == c.width && m.height == c.height && m.refresh_millihz == c.refresh_millihz

-- After the first test; `checked_mul` on 64 bits.
unfoldable pub from_rate : ℕ → ℕ → ℕ → ℕ → Option CommittedMode
from_rate width height vsync_num vsync_den =
    if not (ltb (vsync_num * 1000) (2 ^ 64))
    then none
    else let millihz = vsync_num * 1000 / vsync_den in
      if millihz == 0 || ltb u32_max millihz
      then none
      else some (record { width = width; height = height; refresh_millihz = millihz })

unfoldable pub from_signal : ℕ → ℕ → ℕ → ℕ → Option CommittedMode
from_signal width height vsync_num vsync_den =
    if width == 0 || height == 0 || vsync_den == 0
    then none
    else from_rate width height vsync_num vsync_den

pub data LiveGate : Type 0 where
  push not_in_superset : LiveGate
  push_committed_unrecognised : CommittedMode → LiveGate
  -- with `committed` and `superset_idx`
  evicts_committed : CommittedMode → ℕ → LiveGate

unfoldable pub pushes : LiveGate → Bool
pushes push = true
pushes (push_committed_unrecognised c) = true
pushes not_in_superset = false
pushes (evicts_committed c i) = false

-- `position`
unfoldable pub position : CommittedMode → List Mode → Option ℕ
position c [] = none
position c (m ∷ ms) =
    if is_mode c m then some 0 else elim (position c ms) [ none ↦ none | some i ↦ some (suc i) ]

unfoldable pub superset_index_of : List Mode → CommittedMode → Option ℕ
superset_index_of superset committed = elim (position committed superset) [
  | none ↦ none
  | some i ↦ some (i % 2 ^ 32)
]

-- `targets.iter().any(|m| committed.is(m))`
unfoldable pub any_is : CommittedMode → List Mode → Bool
any_is c [] = false
any_is c (m ∷ ms) = is_mode c m || any_is c ms

unfoldable pub live_gate : List Mode → List Mode → Option CommittedMode → LiveGate
live_gate superset targets none =
    if not (all_within superset targets) then not_in_superset else push
live_gate superset targets (some committed) =
    if not (all_within superset targets)
    then not_in_superset
    else elim (superset_index_of superset committed) [
      | none ↦ push_committed_unrecognised committed
      | some i ↦ if not (any_is committed targets) then evicts_committed committed i else push
    ]

-- The loop over the first `limit` monitor modes, the next of which is number `i`.
unfoldable pub first_offered : List Mode → List Mode → ℕ → ℕ → ℕ
first_offered targets modes zero i = 0
first_offered targets [] (suc limit) i = 0
first_offered targets (m ∷ ms) (suc limit) i =
    if contains targets m then i % 2 ^ 32 else first_offered targets ms limit (i + 1)

unfoldable pub preferred_monitor_mode_idx : List Mode → List Mode → ℕ → ℕ
preferred_monitor_mode_idx monitor_modes targets fill =
    first_offered targets monitor_modes (min fill (length monitor_modes)) 0
