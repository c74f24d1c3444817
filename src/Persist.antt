-- ===== src/Persist.antt =====
-- crates/luminal-vgd-core/src/persist.rs: the blob that the driver stores under its device's key. A
-- reader's `data` from `at` on is the list of bytes that it has left.
pub mod RoundTrip
pub mod Truncation
use luminal_vgd.Prelude.{
  ℕ, ◌%◌, ◌^◌, Bool, not, Option, none, some, List, [], ◌∷◌, ◌++◌, ◌==◌, ltb, if◌then◌else◌, length,
  is_some,
}
use luminal_vgd.Prelude.Bytes.{
  Bytes, to_le_bytes, Reader, pure, ◌>>=◌, ◌>>◌, refuse_when, from_le_bytes, times,
}
use luminal_vgd.Proto.{PermanentPoolConfig}

abbrev pub persist_magic : ℕ
persist_magic = 0x4C56_4750

abbrev pub persist_schema : ℕ
persist_schema = 1

pub record PersistedState : Type 0 where
  pub reservations : List (ℕ × ℕ)
  pub pool : Option PermanentPoolConfig

unfoldable pub put_u32 : ℕ → Bytes
put_u32 = to_le_bytes 4

unfoldable pub put_u64 : ℕ → Bytes
put_u64 = to_le_bytes 8

-- The loop over the reservations.
unfoldable pub put_reservations : List (ℕ × ℕ) → Bytes
put_reservations [] = []
put_reservations ((display_id, connector) ∷ rest) =
    put_u64 display_id ++ (put_u32 connector ++ put_reservations rest)

-- The two loops over the configuration's fields and over its name.
unfoldable pub put_all : ℕ → List ℕ → Bytes
put_all size [] = []
put_all size (v ∷ vs) = to_le_bytes size v ++ put_all size vs

-- The array that `serialize` loops over.
unfoldable pub numbers : PermanentPoolConfig → List ℕ
numbers p =
    p.count ∷ p.width ∷ p.height ∷ p.refresh_millihz ∷ p.bit_depth ∷ p.hdr ∷ p.physical_width_mm
    ∷ p.physical_height_mm ∷ []

unfoldable pub put_pool : Option PermanentPoolConfig → Bytes
put_pool none = put_u32 0
put_pool (some p) = put_u32 1 ++ (put_all 4 (numbers p) ++ put_all 2 p.name)

unfoldable pub serialize : PersistedState → Bytes
serialize state =
    put_u32 persist_magic
    ++ (put_u32 persist_schema
        ++ (put_u32 (length state.reservations % 2 ^ 32)
            ++ (put_reservations state.reservations ++ put_pool state.pool)))

unfoldable pub read_u16 : Reader ℕ
read_u16 = from_le_bytes 2

unfoldable pub read_u32 : Reader ℕ
read_u32 = from_le_bytes 4

unfoldable pub read_u64 : Reader ℕ
read_u64 = from_le_bytes 8

unfoldable pub read_reservation : Reader (ℕ × ℕ)
read_reservation = do display_id ← read_u64; connector ← read_u32; pure (display_id, connector)

-- `vals[0]` to `vals[7]` are read in the order of the fields.
unfoldable pub read_config : Reader PermanentPoolConfig
read_config = do
  count ← read_u32
  width ← read_u32
  height ← read_u32
  refresh_millihz ← read_u32
  bit_depth ← read_u32
  hdr ← read_u32
  physical_width_mm ← read_u32
  physical_height_mm ← read_u32
  name ← times 32 read_u16
  pure (record {
    count = count;
    width = width;
    height = height;
    refresh_millihz = refresh_millihz;
    bit_depth = bit_depth;
    hdr = hdr;
    physical_width_mm = physical_width_mm;
    physical_height_mm = physical_height_mm;
    name = name;
  })

abbrev pub to_some : PermanentPoolConfig → Reader (Option PermanentPoolConfig)
to_some p = pure (some p)

unfoldable pub read_pool : ℕ → Reader (Option PermanentPoolConfig)
read_pool present = if not (present == 0) then (read_config >>= to_some) else pure none

abbrev pub max_stored_reservations : ℕ
max_stored_reservations = 1024

-- `parse`, with the bytes that it has not read.
unfoldable pub parse_blob : Reader PersistedState
parse_blob = do
  magic ← read_u32
  refuse_when (not (magic == persist_magic))
  schema ← read_u32
  refuse_when (not (schema == persist_schema))
  count ← read_u32
  refuse_when (ltb max_stored_reservations count)
  reservations ← times count read_reservation
  present ← read_u32
  pool ← read_pool present
  pure (record { reservations = reservations; pool = pool })

unfoldable pub parse : Bytes → Option PersistedState
parse blob = elim (parse_blob blob) [ none ↦ none | some (state, rest) ↦ some state ]
