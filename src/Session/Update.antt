-- ===== src/Session/Update.antt =====
-- `update_modes` of crates/luminal-vgd-core/src/session.rs.
use luminal_vgd.Prelude.{
  ℕ, ◌+◌, ◌%◌, ◌^◌, Bool, true, false, ◌&&◌, Option, none, some, List, [], ◌∷◌, ◌==◌, if◌then◌else◌,
  is_some, length, ok, err, ◌↔◌, ◌≡◌, refl, arith,
}
use luminal_vgd.Prelude.Map.{lookup, insert}
use luminal_vgd.Error.{Fallible, no_such_session}
use luminal_vgd.Proto.{ModeSpec, as_raw}
use luminal_vgd.Modes.{
  Mode, TargetSelection, validate_list, select_targets, is_empty, mode_eq, mode_eq_iff,
}
use luminal_vgd.Session.State.{Monitor, SessionTable, ModeUpdate, target_base}

-- Slice equality.
unfoldable pub modes_eq : List Mode → List Mode → Bool
modes_eq [] [] = true
modes_eq (a ∷ as') (b ∷ bs) = mode_eq a b && modes_eq as' bs
modes_eq _ _ = false

-- The block of a monitor, expired where the token has moved on.
unfoldable pub expire_block : ℕ → Monitor → Monitor
expire_block commit_token m = elim m.blocked [
  | none ↦ m
  | some b ↦ if b.token == commit_token then m else record m { blocked = none }
]

-- An answer that changes nothing.
unfoldable pub unchanged : Monitor → TargetSelection → List Mode → Bool → Option ℕ → ModeUpdate
unchanged m s targets refused blocked = record {
  targets = targets;
  accepted = s.accepted;
  rejected = s.rejected;
  first_rejected = s.first_rejected;
  queued = none;
  pending = is_some m.pending_targets;
  refused = refused;
  blocked = blocked;
}

-- The remembered refusal of exactly this list, if there is one.
unfoldable pub block_for : Monitor → List Mode → Option ℕ
block_for m targets = elim m.blocked [
  | none ↦ none
  | some b ↦ if modes_eq b.targets targets then some b.superset_idx else none
]

abbrev pub next_seq : SessionTable → ℕ
next_seq t = (t.update_seq + 1) % 2 ^ 64

-- The new pending selection.
unfoldable pub queue : SessionTable → ℕ → Monitor → TargetSelection → ModeUpdate × SessionTable
queue t session_id m s =
    let seq = next_seq t in
    (
      record {
        targets = s.targets;
        accepted = s.accepted;
        rejected = s.rejected;
        first_rejected = s.first_rejected;
        queued = some seq;
        pending = true;
        refused = false;
        blocked = none;
      },
      record t {
        update_seq = seq;
        monitors =
            insert session_id
              (record m {
                pending_targets = some (record { seq = seq; targets = s.targets });
                blocked = none;
              })
              t.monitors;
      },
    )

-- What a selection leads to, in the order of the tests.
unfoldable pub decide : SessionTable → ℕ → Monitor → TargetSelection → ModeUpdate × SessionTable
decide t session_id m s =
    if is_empty s
    then (unchanged m s m.target_modes true none, t)
    else elim (block_for m s.targets) [
      | some idx ↦ (unchanged m s m.target_modes false (some idx), t)
      | none ↦
          if modes_eq s.targets (target_base m)
          then (unchanged m s s.targets false none, t)
          else queue t session_id m s
    ]

-- `u32::from(hdr)`
abbrev pub hdr_raw : Bool → ℕ
hdr_raw true = 1
hdr_raw false = 0

abbrev pub and_table : SessionTable → ModeUpdate × SessionTable → Fallible ModeUpdate × SessionTable
and_table t (u, t') = (ok u, t')

-- After the block has expired or not. An empty superset panics at its first entry.
unfoldable pub update_monitor :
    SessionTable
    → ℕ
    → Monitor
    → List ModeSpec
    → ℕ
    → List Mode
    → Option (Fallible ModeUpdate × SessionTable)
update_monitor t session_id m specs drv_caps [] = none
update_monitor t session_id m specs drv_caps (pref ∷ _) =
    elim (validate_list specs (length specs % 2 ^ 32) (as_raw pref.bit_depth) (hdr_raw pref.hdr)
      drv_caps) [
        | err e ↦ some (err e, t)
        | ok requested ↦
            some (and_table t (decide t session_id m (select_targets m.modes requested)))
      ]

unfoldable pub update_modes :
    SessionTable → ℕ → List ModeSpec → ℕ → ℕ → Option (Fallible ModeUpdate × SessionTable)
update_modes t session_id specs drv_caps commit_token = elim (lookup session_id t.monitors) [
  | none ↦ some (err no_such_session, t)
  | some m ↦
      let m' = expire_block commit_token m in
      update_monitor (record t { monitors = insert session_id m' t.monitors }) session_id m' specs
        drv_caps m'.modes
]

pub modes_eq_iff : (xs ys : List Mode) → (modes_eq xs ys ≡ true) ↔ (xs ≡ ys)
unfolding modes_eq
modes_eq_iff [] [] = (λ e. refl, λ e. refl)
modes_eq_iff [] (b ∷ bs) = (λ e. cc, λ e. cc)
modes_eq_iff (a ∷ as') [] = (λ e. cc, λ e. cc)
modes_eq_iff (a ∷ as') (b ∷ bs) = (
  λ e. ground (arith, (mode_eq_iff a b).0, (modes_eq_iff as' bs).0),
  λ e. ground (arith, (mode_eq_iff a b).1, (modes_eq_iff as' bs).1),
)
