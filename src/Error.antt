-- ===== src/Error.antt =====
-- crates/luminal-vgd-core/src/error.rs: the core's error type and its wire codes.
use luminal_vgd.Prelude.{◌≡◌, ◌≢◌, Result, arith}
use luminal_vgd.Prelude.Int.{ℤ}
use luminal_vgd.Proto.Err

pub data CoreError : Type 0 where
  proto_mismatch max_monitors bad_mode bad_bit_depth hdr_unsupported no_adapter : CoreError
  duplicate_session no_such_session ring_alloc not_handshaken identity_in_use bad_pool : CoreError
  internal : CoreError

unfoldable pub code : CoreError → ℤ
code proto_mismatch = Err.proto_mismatch
code max_monitors = Err.max_monitors
code bad_mode = Err.bad_mode
code bad_bit_depth = Err.bad_bit_depth
code hdr_unsupported = Err.hdr_unsupported
code no_adapter = Err.no_adapter
code duplicate_session = Err.duplicate_session
code no_such_session = Err.no_such_session
code ring_alloc = Err.ring_alloc
code not_handshaken = Err.not_handshaken
code identity_in_use = Err.identity_in_use
code bad_pool = Err.bad_pool
code internal = Err.internal

-- `Result<T, CoreError>`
abbrev pub Fallible : Type 0 → Type 0
Fallible = Result CoreError

-- No error is reported as success, and two errors with the same code are the same error.
pub code_faithful : (a b : CoreError) → code a ≡ code b → (a ≡ b) × (code a ≢ Err.ok)
unfolding code
code_faithful a b e = (ground arith, ground arith)
