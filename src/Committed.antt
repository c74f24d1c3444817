-- ===== src/Committed.antt =====
-- `CommittedPaths` of crates/luminal-vgd-driver/src/modepush.rs: the modes the OS last committed,
-- in slots that are published under a version. Here its operations run with nobody else at the
-- record; the children interleave them.
pub mod Sequential
pub mod Seqlock
pub mod Token
use luminal_vgd.Prelude.{
  ℕ, zero, suc, ◌+◌, ◌*◌, ◌/◌, ◌%◌, ◌^◌, Bool, true, false, not, Option, none, some, List, [], ◌∷◌,
  ◌==◌, if◌then◌else◌, replicate,
}
use luminal_vgd.Proto.{abi_max_monitors}
use luminal_vgd.ModePush.{CommittedMode}

abbrev pub max_committed_paths : ℕ
max_committed_paths = abi_max_monitors

abbrev pub read_retries : ℕ
read_retries = 4

pub record CommittedSlot : Type 0 where
  pub version : ℕ
  pub monitor : ℕ
  pub size : ℕ
  pub refresh_millihz : ℕ

-- `CommittedSlot::new`
abbrev pub new_slot : CommittedSlot
new_slot = record { version = 0; monitor = 0; size = 0; refresh_millihz = 0 }

abbrev pub no_mode : CommittedMode
no_mode = record { width = 0; height = 0; refresh_millihz = 0 }

-- `(width << 32) | height`, for a height of 32 bits
abbrev pub pack_size : CommittedMode → ℕ
pack_size mode = mode.width * 2 ^ 32 % 2 ^ 64 + mode.height

unfoldable pub publish : ℕ → CommittedMode → CommittedSlot → CommittedSlot
publish monitor mode slot = record {
  version = (slot.version + 2) % 2 ^ 32;
  monitor = monitor;
  size = pack_size mode;
  refresh_millihz = mode.refresh_millihz;
}

unfoldable pub clear : CommittedSlot → CommittedSlot
clear slot = publish 0 no_mode slot

-- What the loads of one round of `read` see: the slot as it is at each.
pub record Loads : Type 0 where
  pub before : CommittedSlot
  pub at_monitor : CommittedSlot
  pub at_size : CommittedSlot
  pub at_refresh : CommittedSlot
  pub after : CommittedSlot

-- The loads, where nobody writes.
abbrev pub still : CommittedSlot → Loads
still s = record { before = s; at_monitor = s; at_size = s; at_refresh = s; after = s }

-- Whether a round is discarded: a write in progress, or another version after the payload.
unfoldable pub torn : Loads → Bool
torn l = if l.before.version % 2 == 0 then not (l.after.version == l.before.version) else true

unfoldable pub payload : Loads → Option (ℕ × CommittedMode)
payload l =
    if l.at_monitor.monitor == 0
    then none
    else some (
      l.at_monitor.monitor,
      record {
        width = l.at_size.size / 2 ^ 32 % 2 ^ 32;
        height = l.at_size.size % 2 ^ 32;
        refresh_millihz = l.at_refresh.refresh_millihz;
      },
    )

-- The rounds of `read`, which are at most `read_retries`.
unfoldable pub read : List Loads → Option (ℕ × CommittedMode)
read [] = none
read (l ∷ rounds) = let rest = read rounds in if torn l then rest else payload l

unfoldable pub read_still : CommittedSlot → Option (ℕ × CommittedMode)
read_still slot = read (replicate read_retries (still slot))

-- The loop of `apply` over the slots, with the number of paths recorded.
unfoldable pub record_paths : List CommittedSlot → List (ℕ × CommittedMode) → List CommittedSlot × ℕ
record_paths [] paths = ([], 0)
record_paths (slot ∷ slots) [] =
    let (slots', recorded) = record_paths slots [] in (clear slot ∷ slots', recorded)
record_paths (slot ∷ slots) ((monitor, mode) ∷ paths) =
    let (slots', recorded) = record_paths slots paths in
    if not (monitor == 0)
    then (publish monitor mode slot ∷ slots', recorded + 1)
    else (clear slot ∷ slots', recorded)

abbrev pub holds_monitor : ℕ → Option (ℕ × CommittedMode) → Bool
holds_monitor monitor none = false
holds_monitor monitor (some (m, mode)) = m == monitor

-- The loop of `forget` over the slots.
unfoldable pub forget_slots : ℕ → List CommittedSlot → List CommittedSlot
forget_slots monitor [] = []
forget_slots monitor (slot ∷ slots) =
    (if holds_monitor monitor (read_still slot) then clear slot else slot)
    ∷ forget_slots monitor slots

abbrev pub mode_if : ℕ → Option (ℕ × CommittedMode) → Option CommittedMode
mode_if monitor none = none
mode_if monitor (some (m, mode)) = if m == monitor then some mode else none

abbrev pub or_else : Option CommittedMode → Option CommittedMode → Option CommittedMode
or_else none rest = rest
or_else (some mode) rest = some mode

-- `find_map`
unfoldable pub find_mode : ℕ → List CommittedSlot → Option CommittedMode
find_mode monitor [] = none
find_mode monitor (slot ∷ slots) =
    or_else (mode_if monitor (read_still slot)) (find_mode monitor slots)

-- The record, while its writer token is free.
pub record CommittedPaths : Type 0 where
  pub slots : List CommittedSlot
  pub active : ℕ
  pub generation : ℕ

unfoldable pub new : CommittedPaths
new = record { slots = replicate max_committed_paths new_slot; active = 0; generation = 0 }

-- A release that nobody was turned away from.
abbrev pub released : CommittedPaths → CommittedPaths
released c = record c { generation = (c.generation + 1) % 2 ^ 64 }

unfoldable pub apply : List (ℕ × CommittedMode) → ℕ → CommittedPaths → CommittedPaths × ℕ
apply paths active_total c =
    let (slots, recorded) = record_paths c.slots paths in
    (released (record c { slots = slots; active = active_total }), recorded)

unfoldable pub forget : ℕ → CommittedPaths → CommittedPaths
forget monitor c =
    if monitor == 0 then c else released (record c { slots = forget_slots monitor c.slots })

unfoldable pub get : ℕ → CommittedPaths → Option CommittedMode
get monitor c = if monitor == 0 then none else find_mode monitor c.slots

unfoldable pub get_with_token : ℕ → CommittedPaths → Option CommittedMode × ℕ
get_with_token monitor c = (get monitor c, c.generation)
