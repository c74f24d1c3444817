-- ===== src/Persist/RoundTrip.antt =====
-- What `parse` of crates/luminal-vgd-core/src/persist.rs reads of what `serialize` wrote.
use mathlib.Core.List.{append_assoc}
use luminal_vgd.Prelude.{
  ℕ, suc, ◌%◌, ◌^◌, ◌≤◌, ◌<◌, ◌≡◌, refl, sym, ap, ◌∙◌, inl, inr, false, Option, none, some, List,
  [], ◌∷◌, ◌++◌, ltb, length, All, arith, Option-cases,
}
use luminal_vgd.Prelude.Bytes.{
  Bytes, to_le_bytes, Reader, ◌>>=◌, ◌>>◌, times, Fits-2, Fits-4, Fits-8, from-to_le_bytes,
}
use luminal_vgd.Proto.{PermanentPoolConfig}
use luminal_vgd.Persist.{
  PersistedState, numbers, persist_magic, persist_schema, put_u32, put_u64, put_reservations,
  put_all, put_pool, serialize, read_u16, read_u32, read_u64, read_reservation, read_config,
  read_pool, to_some, parse_blob, parse, max_stored_reservations,
}

-- Every field is within the width that the source gives it.
abbrev pub InWidth : ℕ × ℕ → Type 0
InWidth (display_id, connector) = (display_id < 2 ^ 64) × (connector < 2 ^ 32)

pub record IsConfig (p : PermanentPoolConfig) : Type 0 where
  pub count : p.count < 2 ^ 32
  pub width : p.width < 2 ^ 32
  pub height : p.height < 2 ^ 32
  pub refresh_millihz : p.refresh_millihz < 2 ^ 32
  pub bit_depth : p.bit_depth < 2 ^ 32
  pub hdr : p.hdr < 2 ^ 32
  pub physical_width_mm : p.physical_width_mm < 2 ^ 32
  pub physical_height_mm : p.physical_height_mm < 2 ^ 32
  pub name : All (λ c. c < 2 ^ 16) p.name
  pub name_length : length p.name ≡ 32

abbrev pub PoolFits : Option PermanentPoolConfig → Type 0
PoolFits none = Unit {0}
PoolFits (some p) = IsConfig p

pub record IsStored (s : PersistedState) : Type 0 where
  pub few : length s.reservations ≤ max_stored_reservations
  pub in_width : All InWidth s.reservations
  pub pool : PoolFits s.pool

read-put_u32 : (v : ℕ) (rest : Bytes) → v < 2 ^ 32 → read_u32 (put_u32 v ++ rest) ≡ some (v, rest)
unfolding read_u32 put_u32
read-put_u32 v rest h = from-to_le_bytes 4 v rest (Fits-4 v h)

read-put_u64 : (v : ℕ) (rest : Bytes) → v < 2 ^ 64 → read_u64 (put_u64 v ++ rest) ≡ some (v, rest)
unfolding read_u64 put_u64
read-put_u64 v rest h = from-to_le_bytes 8 v rest (Fits-8 v h)

-- A read that succeeds, at the front of a chain.
bind-found :
    {A B : Type 0} (m : Reader A) (f : A → Reader B) (r r' : Bytes) (a : A)
    → m r ≡ some (a, r')
    → (m >>= f) r ≡ f a r'
bind-found m f r r' a e = rw (e, ◌>>=◌) refl

-- Two reads that succeed together, at the front of a longer chain.
bind-then :
    {A B C : Type 0} (m : Reader A) (f : A → Reader B) (g : B → Reader C) (r r' : Bytes) (b : B)
    → (m >>= f) r ≡ some (b, r')
    → (m >>= λ a. f a >>= g) r ≡ g b r'
bind-then m f g r r' b e = elim (Option-cases (m r)) [
  | inl short ↦ let clash = rw (short, ◌>>=◌) at e in cc
  | inr ((a, mid), found) ↦ let e' = rw (found, ◌>>=◌) at e in rw (found, e', ◌>>=◌) refl
]

read-front :
    (v : ℕ) (more rest : Bytes)
    → v < 2 ^ 32
    → read_u32 ((put_u32 v ++ more) ++ rest) ≡ some (v, more ++ rest)
read-front v more rest h =
    ap read_u32 (append_assoc (put_u32 v) more rest) ∙ read-put_u32 v (more ++ rest) h

times-suc :
    {A : Type 0} (n : ℕ) (f : Reader A) (r mid last : Bytes) (a : A) (as' : List A)
    → f r ≡ some (a, mid)
    → times n f mid ≡ some (as', last)
    → times (suc n) f r ≡ some (a ∷ as', last)
unfolding times
times-suc n f r mid last a as' e g = rw (e, g, times) refl

read_reservation-put :
    (d c : ℕ) (more rest : Bytes)
    → d < 2 ^ 64
    → c < 2 ^ 32
    → read_reservation ((put_u64 d ++ (put_u32 c ++ more)) ++ rest) ≡ some ((d, c), more ++ rest)
unfolding read_reservation
read_reservation-put d c more rest h k =
    let first : read_u64 ((put_u64 d ++ (put_u32 c ++ more)) ++ rest)
        ≡ some (d, (put_u32 c ++ more) ++ rest) =
      ap read_u64 (append_assoc (put_u64 d) (put_u32 c ++ more) rest) ∙ read-put_u64 d _ h in
    let second : read_u32 ((put_u32 c ++ more) ++ rest) ≡ some (c, more ++ rest) =
      read-front c more rest k in
    rw (first, second, read_reservation, ◌>>=◌) refl

times-put_reservations :
    (rs : List (ℕ × ℕ)) (rest : Bytes)
    → All InWidth rs
    → times (length rs) read_reservation (put_reservations rs ++ rest) ≡ some (rs, rest)
unfolding times put_reservations
times-put_reservations [] rest h = refl
times-put_reservations ((d, c) ∷ rs) rest h =
    times-suc (length rs) read_reservation _ _ rest (d, c) rs
      (read_reservation-put d c (put_reservations rs) rest h.0.0 h.0.1)
      (times-put_reservations rs rest h.1)

times-put_all :
    (cs : List ℕ) (rest : Bytes)
    → All (λ c. c < 2 ^ 16) cs
    → times (length cs) read_u16 (put_all 2 cs ++ rest) ≡ some (cs, rest)
unfolding times put_all read_u16
times-put_all [] rest h = refl
times-put_all (c ∷ cs) rest h =
    times-suc (length cs) read_u16 _ _ rest c cs
      (ap read_u16 (append_assoc (to_le_bytes 2 c) (put_all 2 cs) rest)
        ∙ from-to_le_bytes 2 c (put_all 2 cs ++ rest) (Fits-2 c h.0))
      (times-put_all cs rest h.1)

-- One of the configuration's numbers, in front of the others and of the name.
read-put_all :
    (v : ℕ) (vs : List ℕ) (more rest : Bytes)
    → v < 2 ^ 32
    → read_u32 ((put_all 4 (v ∷ vs) ++ more) ++ rest) ≡ some (v, (put_all 4 vs ++ more) ++ rest)
unfolding put_all put_u32
read-put_all v vs more rest h =
    ap (λ b. read_u32 (b ++ rest)) (append_assoc (put_u32 v) (put_all 4 vs) more)
    ∙ ap read_u32 (append_assoc (put_u32 v) (put_all 4 vs ++ more) rest)
    ∙ read-put_u32 v ((put_all 4 vs ++ more) ++ rest) h

read_name-put :
    (cs : List ℕ) (rest : Bytes)
    → All (λ c. c < 2 ^ 16) cs
    → length cs ≡ 32
    → times 32 read_u16 ((put_all 4 [] ++ put_all 2 cs) ++ rest) ≡ some (cs, rest)
unfolding put_all
read_name-put cs rest h n =
    ap (λ k. times k read_u16 (put_all 2 cs ++ rest)) (sym n) ∙ times-put_all cs rest h

read_config-put :
    (p : PermanentPoolConfig) (rest : Bytes)
    → IsConfig p
    → read_config ((put_all 4 (numbers p) ++ put_all 2 p.name) ++ rest) ≡ some (p, rest)
unfolding read_config numbers
read_config-put p rest w =
    let name = put_all 2 p.name in
    let a = read-put_all p.physical_height_mm [] name rest w.physical_height_mm in
    let b =
      read-put_all p.physical_width_mm (p.physical_height_mm ∷ []) name rest w.physical_width_mm in
    let c = read-put_all p.hdr (p.physical_width_mm ∷ p.physical_height_mm ∷ []) name rest w.hdr in
    let d =
      read-put_all p.bit_depth (p.hdr ∷ p.physical_width_mm ∷ p.physical_height_mm ∷ []) name rest
        w.bit_depth in
    let e =
      read-put_all p.refresh_millihz
        (p.bit_depth ∷ p.hdr ∷ p.physical_width_mm ∷ p.physical_height_mm ∷ []) name rest
        w.refresh_millihz in
    let f =
      read-put_all p.height
        (p.refresh_millihz ∷ p.bit_depth ∷ p.hdr ∷ p.physical_width_mm ∷ p.physical_height_mm ∷ [])
        name rest w.height in
    let g =
      read-put_all p.width
        (p.height ∷ p.refresh_millihz ∷ p.bit_depth ∷ p.hdr ∷ p.physical_width_mm
          ∷ p.physical_height_mm ∷ [])
        name rest w.width in
    let h =
      read-put_all p.count
        (p.width ∷ p.height ∷ p.refresh_millihz ∷ p.bit_depth ∷ p.hdr ∷ p.physical_width_mm
          ∷ p.physical_height_mm ∷ [])
        name rest w.count in
    rw (h, g, f, e, d, c, b, a, read_name-put p.name rest w.name w.name_length, read_config, ◌>>=◌)
      refl

read_pool-put :
    (o : Option PermanentPoolConfig) (rest : Bytes)
    → PoolFits o
    → (read_u32 >>= read_pool) (put_pool o ++ rest) ≡ some (o, rest)
unfolding read_pool put_pool
read_pool-put none rest w =
    bind-found read_u32 read_pool _ rest 0 (read-put_u32 0 rest (omega arith))
read_pool-put (some p) rest w =
    bind-found read_u32 read_pool _ _ 1
      (read-front 1 (put_all 4 (numbers p) ++ put_all 2 p.name) rest (omega arith))
    ∙ bind-found read_config to_some _ rest p (read_config-put p rest w)

-- What `serialize` wrote, in front of any further bytes, is read back, and the further bytes are
-- left.
pub parse_blob-serialize :
    (s : PersistedState) (rest : Bytes)
    → IsStored s
    → parse_blob (serialize s ++ rest) ≡ some (s, rest)
unfolding parse_blob serialize
parse_blob-serialize s rest w =
    let count = length s.reservations in
    let fits : count % 2 ^ 32 ≡ count = omega (arith, w.few) in
    let few : ltb max_stored_reservations count ≡ false = ground (arith, w.few) in
    let pool = put_pool s.pool in
    let stored = put_reservations s.reservations in
    let magic =
      read-front persist_magic (put_u32 persist_schema ++ (put_u32 count ++ (stored ++ pool))) rest
        (omega arith) in
    let schema = read-front persist_schema (put_u32 count ++ (stored ++ pool)) rest (omega arith) in
    let size = read-front count (stored ++ pool) rest (omega (arith, w.few)) in
    let all =
      ap (times count read_reservation) (append_assoc stored pool rest)
      ∙ times-put_reservations s.reservations (pool ++ rest) w.in_width in
    rw (fits, parse_blob, ◌>>=◌, ◌>>◌, magic, schema, size, few, all)
      (bind-then read_u32 read_pool _ (pool ++ rest) rest s.pool (read_pool-put s.pool rest w.pool))

-- The state that was serialized is what is parsed, whatever bytes follow it in the buffer:
-- connectors and identities within their widths, at most 1024 of them, and a pool of which every
-- field is within its width and the name has 32 characters.
pub parse-serialize :
    (s : PersistedState) (rest : Bytes) → IsStored s → parse (serialize s ++ rest) ≡ some s
unfolding parse
parse-serialize s rest w = rw (parse_blob-serialize s rest w, parse) refl
