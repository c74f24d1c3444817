-- ===== src/Proto/CreateFlags.antt =====
-- `mod create_flags` of crates/luminal-driver-proto/src/lib.rs.
use luminal_vgd.Prelude.{ℕ}

abbrev pub refresh_doubled : ℕ
refresh_doubled = 1

abbrev pub ephemeral_identity : ℕ
ephemeral_identity = 2

abbrev pub d3d12_fence_transport : ℕ
d3d12_fence_transport = 4

abbrev pub fence_transport_required : ℕ
fence_transport_required = 8
