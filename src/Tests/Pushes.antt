-- ===== src/Tests/Pushes.antt =====
-- A monitor of two modes, one of them committed, for crates/luminal-vgd-driver/src/modepush.rs and
-- crates/luminal-vgd-driver/src/tdr.rs.
use luminal_vgd.Prelude.{true, false, some, List, [], ◌∷◌, ◌≡◌, ◌↔◌, refl, In, contains}
use luminal_vgd.Proto.{depth_eq}
use luminal_vgd.Modes.{Mode, mode_eq}
use luminal_vgd.ModePush.{
  CommittedMode, is_mode, all_within, any_is, position, superset_index_of, live_gate, pushes,
  evicts_committed,
}
use luminal_vgd.ModePush.Gate.{Offers, live_gate-pushes_iff}
use luminal_vgd.Tdr.{RingLive, new, publish_worker_started}
use luminal_vgd.Tests.Sessions.{full_hd_mode, hd_mode}

abbrev superset : List Mode
superset = full_hd_mode ∷ hd_mode ∷ []

-- The size and rate of `hd_mode`
abbrev running : CommittedMode
running = record { width = 1280; height = 720; refresh_millihz = 60_000 }

live_gate-pushes_iff_example :
    (pushes (live_gate superset (hd_mode ∷ []) (some running)) ≡ true)
    ↔ ((x : Mode) → In x (hd_mode ∷ []) → In x superset)
      × ((c : CommittedMode) → some running ≡ some c → Offers c superset → Offers c (hd_mode ∷ []))
live_gate-pushes_iff_example = live_gate-pushes_iff superset (hd_mode ∷ []) (some running)

is_refused : live_gate superset (full_hd_mode ∷ []) (some running) ≡ evicts_committed running 1
unfolding live_gate all_within contains mode_eq depth_eq superset_index_of position is_mode any_is
is_refused = refl

-- A worker that started, on a ring without a transport.
abbrev restarted : RingLive
restarted = (publish_worker_started (new false)).1
