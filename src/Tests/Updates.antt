-- ===== src/Tests/Updates.antt =====
-- One mode update of the first session, and its reports, for
-- crates/luminal-vgd-core/src/session.rs.
use luminal_vgd.Prelude.{
  ◌+◌, ◌%◌, ◌^◌, ◌≤◌, ◌≡◌, ◌≢◌, refl, subst, inl, inr, false, none, some, [], ◌∷◌, arith, In,
  contains, nat_eq,
}
use luminal_vgd.Prelude.Map.{lookup}
use luminal_vgd.Proto.{depth_eq, from_raw, as_raw}
use luminal_vgd.Adapter.{select_adapter, find_luid, hardware, max_by_vram, greatest, is_greater}
use luminal_vgd.Modes.{
  Mode, TargetSelection, validate_list, validate_from, validate, select_targets, select_from,
  select_step, mode_eq, is_empty, outside_envelope, hdr_of, check_depth,
}
use luminal_vgd.Identity
use luminal_vgd.Session.State.{Monitor, SessionTable, new, applied, not_applied, target_base}
use luminal_vgd.Session.Create.{
  create, create_trusted, admit, plug, monitor_of, identity_of, is_ephemeral, choose_adapter,
  display_ids,
}
use luminal_vgd.Session.Update.{decide, queue, unchanged, block_for, modes_eq}
use luminal_vgd.Proto.Err
use luminal_vgd.Session.Again.{ThenAgain, applied-in_force, not_applied-queued_again}
use luminal_vgd.Session.Invariant.{decide-IsValid, IsValid}
use luminal_vgd.Tests.Sessions.{
  one_session, one_session-IsValid, monitor, first_found, room, none_settled, hd_mode,
}

abbrev first : Monitor
first = monitor 7 100 0

abbrev hd_only : TargetSelection
hd_only = select_targets first.modes (hd_mode ∷ [])

abbrev queued_table : SessionTable
queued_table = (decide one_session 7 first hd_only).1

queued_table-IsValid : IsValid queued_table
queued_table-IsValid =
    decide-IsValid one_session 7 first (hd_mode ∷ []) one_session-IsValid room first_found

is_queued : (decide one_session 7 first hd_only).0.queued ≡ some 1
unfolding create create_trusted admit plug monitor_of new identity_of is_ephemeral choose_adapter
    display_ids select_adapter find_luid hardware max_by_vram greatest is_greater validate_list
    validate_from validate outside_envelope hdr_of check_depth mode_eq depth_eq from_raw as_raw
    Identity.new Identity.acquire Identity.claim Identity.find_free Identity.is_permanent_display_id
    Identity.ephemeral_display_id contains Identity.reserve decide queue unchanged block_for
    is_empty target_base modes_eq select_targets select_from select_step
is_queued = refl

differs : hd_only.targets ≢ first.target_modes
unfolding create create_trusted admit plug monitor_of new identity_of is_ephemeral choose_adapter
    display_ids select_adapter find_luid hardware max_by_vram greatest is_greater validate_list
    validate_from validate outside_envelope hdr_of check_depth mode_eq depth_eq from_raw as_raw
    Identity.new Identity.acquire Identity.claim Identity.find_free Identity.is_permanent_display_id
    Identity.ephemeral_display_id contains Identity.reserve decide queue unchanged block_for
    is_empty target_base modes_eq select_targets select_from select_step
differs e = cc

settled_below : first.settled_seq ≤ one_session.update_seq
settled_below = omega (arith, none_settled)

applied-in_force_example : ThenAgain one_session 0 7 1 first hd_only applied (λ m' u.
    (m'.target_modes ≡ hd_only.targets)
    × (m'.pending_targets ≡ none)
    × (u.queued ≡ none)
    × (u.pending ≡ false)
    × (u.refused ≡ false)
    × (u.targets ≡ hd_only.targets))
applied-in_force_example =
    applied-in_force one_session 0 7 1 first hd_only settled_below room is_queued

not_applied-queued_again_example : ThenAgain one_session 0 7 1 first hd_only not_applied (λ m' u.
    (m'.target_modes ≡ first.target_modes)
    × (m'.pending_targets ≡ none)
    × (m'.last_error ≡ Err.update_failed)
    × (u.queued ≡ some ((1 + 1) % 2 ^ 64))
    × (u.targets ≡ hd_only.targets))
not_applied-queued_again_example =
    not_applied-queued_again one_session 0 7 1 first hd_only settled_below room differs is_queued

abbrev after : Monitor
unfolding create create_trusted admit plug monitor_of new identity_of is_ephemeral choose_adapter
    display_ids select_adapter find_luid hardware max_by_vram greatest is_greater validate_list
    validate_from validate outside_envelope hdr_of check_depth mode_eq depth_eq from_raw as_raw
    Identity.new Identity.acquire Identity.claim Identity.find_free Identity.is_permanent_display_id
    Identity.ephemeral_display_id contains Identity.reserve decide queue unchanged block_for
    is_empty target_base modes_eq select_targets select_from select_step
after = record first { pending_targets = some (record { seq = 1; targets = hd_mode ∷ [] }) }

queued_found : lookup 7 queued_table.monitors ≡ some after
unfolding create create_trusted admit plug monitor_of new identity_of is_ephemeral choose_adapter
    display_ids select_adapter find_luid hardware max_by_vram greatest is_greater validate_list
    validate_from validate outside_envelope hdr_of check_depth mode_eq depth_eq from_raw as_raw
    Identity.new Identity.acquire Identity.claim Identity.find_free Identity.is_permanent_display_id
    Identity.ephemeral_display_id contains Identity.reserve decide queue unchanged block_for
    is_empty target_base modes_eq select_targets select_from select_step
queued_found = refl

within :
    (m : Monitor)
    → lookup 7 queued_table.monitors ≡ some m
    → (x : Mode) → In x (hd_mode ∷ [])
    → In x m.modes
unfolding monitor_of after
within m e x i =
    let same : after ≡ m = cc in
    subst (λ n. In x n.modes) same (elim i [ inl q ↦ inr (inl q) | inr z ↦ absurd z ])
