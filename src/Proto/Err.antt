-- ===== src/Proto/Err.antt =====
-- `mod err` of crates/luminal-driver-proto/src/lib.rs: the wire codes, signed 32-bit integers.
use luminal_vgd.Prelude.Int.{ℤ, pos, negsuc}

abbrev pub ok : ℤ
ok = pos 0

abbrev pub proto_mismatch : ℤ
proto_mismatch = negsuc 0

abbrev pub max_monitors : ℤ
max_monitors = negsuc 1

abbrev pub bad_mode : ℤ
bad_mode = negsuc 2

abbrev pub bad_bit_depth : ℤ
bad_bit_depth = negsuc 3

abbrev pub hdr_unsupported : ℤ
hdr_unsupported = negsuc 4

abbrev pub no_adapter : ℤ
no_adapter = negsuc 5

abbrev pub duplicate_session : ℤ
duplicate_session = negsuc 6

abbrev pub no_such_session : ℤ
no_such_session = negsuc 7

abbrev pub ring_alloc : ℤ
ring_alloc = negsuc 8

abbrev pub not_handshaken : ℤ
not_handshaken = negsuc 9

abbrev pub identity_in_use : ℤ
identity_in_use = negsuc 10

abbrev pub bad_pool : ℤ
bad_pool = negsuc 11

abbrev pub update_failed : ℤ
update_failed = negsuc 12

abbrev pub mode_committed : ℤ
mode_committed = negsuc 13

abbrev pub internal : ℤ
internal = negsuc 99
