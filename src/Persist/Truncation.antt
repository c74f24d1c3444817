-- ===== src/Persist/Truncation.antt =====
-- A blob that was cut short, in `parse` of crates/luminal-vgd-core/src/persist.rs.
use mathlib.Core.List.{append-nil}
use luminal_vgd.Prelude.{
  ℕ, ◌≡◌, ◌≢◌, refl, sym, ap, ◌∙◌, inl, inr, Bool, not, none, some, [], ◌∷◌, ◌++◌, ◌==◌, Bool-cases,
  Option-cases,
}
use luminal_vgd.Prelude.Bytes.{
  Bytes, Reader, ◌>>=◌, ◌>>◌, refuse_when, times, IsLocal, bind-IsLocal, pure-IsLocal,
  refuse_when-IsLocal, from_le_bytes-IsLocal, times-IsLocal,
}
use luminal_vgd.Persist.{
  PersistedState, serialize, read_u16, read_u32, read_u64, read_reservation, read_config, read_pool,
  to_some, parse_blob, parse,
}
use luminal_vgd.Persist.RoundTrip.{IsStored, parse_blob-serialize}

read_u16-IsLocal : IsLocal read_u16
unfolding read_u16
read_u16-IsLocal = from_le_bytes-IsLocal 2

read_u32-IsLocal : IsLocal read_u32
unfolding read_u32
read_u32-IsLocal = from_le_bytes-IsLocal 4

read_u64-IsLocal : IsLocal read_u64
unfolding read_u64
read_u64-IsLocal = from_le_bytes-IsLocal 8

-- A number, and a reader that depends on it.
u32-IsLocal : {A : Type 0} (f : ℕ → Reader A) → ((v : ℕ) → IsLocal (f v)) → IsLocal (read_u32 >>= f)
u32-IsLocal f l = bind-IsLocal read_u32 f read_u32-IsLocal l

read_reservation-IsLocal : IsLocal read_reservation
unfolding read_reservation
read_reservation-IsLocal =
    bind-IsLocal read_u64 _ read_u64-IsLocal (λ d. u32-IsLocal _ (λ c. pure-IsLocal (d, c)))

read_config-IsLocal : IsLocal read_config
unfolding read_config
read_config-IsLocal = u32-IsLocal _ (λ a. u32-IsLocal _ (λ b. u32-IsLocal _ (λ c.
    u32-IsLocal _ (λ d. u32-IsLocal _ (λ e. u32-IsLocal _ (λ f. u32-IsLocal _ (λ g.
      u32-IsLocal _ (λ h.
        bind-IsLocal (times 32 read_u16) _ (times-IsLocal 32 read_u16 read_u16-IsLocal)
          (λ n. pure-IsLocal _)))))))))

read_pool-IsLocal : (present : ℕ) → IsLocal (read_pool present)
unfolding read_pool
read_pool-IsLocal present = elim (Bool-cases (not (present == 0))) [
  | inl there ↦
      rw there (bind-IsLocal read_config to_some read_config-IsLocal (λ p. pure-IsLocal (some p)))
  | inr gone ↦ rw gone (pure-IsLocal none)
]

unless-IsLocal : {A : Type 0} (b : Bool) (f : Reader A) → IsLocal f → IsLocal (refuse_when b >> f)
unless-IsLocal b f l = bind-IsLocal (refuse_when b) (λ _. f) (refuse_when-IsLocal b) (λ _. l)

parse_blob-IsLocal : IsLocal parse_blob
unfolding parse_blob
parse_blob-IsLocal = u32-IsLocal _ (λ magic. unless-IsLocal _ _ (
    u32-IsLocal _ (λ schema. unless-IsLocal _ _ (
      u32-IsLocal _ (λ count. unless-IsLocal _ _ (
        bind-IsLocal (times count read_reservation) _
          (times-IsLocal count read_reservation read_reservation-IsLocal)
          (λ rs. u32-IsLocal _ (λ present.
            bind-IsLocal (read_pool present) _ (read_pool-IsLocal present)
              (λ pool. pure-IsLocal _)))))))))

append-not_nil : (r q : Bytes) → q ≢ [] → (r ++ q) ≢ []
append-not_nil [] q n e = n e
append-not_nil (b ∷ r) q n e = cc

nothing_left : (o p : PersistedState × Bytes) → o.1 ≡ [] → some o ≡ some p → p.1 ≡ []
nothing_left o p e q = cc

-- A blob that lost one or more of its last bytes is refused: the driver starts afresh, and never
-- with a part of the state.
pub parse-truncated :
    (s : PersistedState) (kept lost : Bytes)
    → IsStored s
    → serialize s ≡ kept ++ lost
    → lost ≢ []
    → parse kept ≡ none
unfolding parse
parse-truncated s kept lost w cut n = elim (Option-cases (parse_blob kept)) [
  | inl short ↦ rw (short, parse) refl
  | inr ((x, rest), found) ↦
      let whole = parse_blob-serialize s [] w in
      let longer = parse_blob-IsLocal kept x rest lost found in
      let same : serialize s ++ [] ≡ kept ++ lost = append-nil (serialize s) ∙ cut in
      let left = sym whole ∙ ap parse_blob same ∙ longer in
      absurd (append-not_nil rest lost n (nothing_left (s, []) (x, rest ++ lost) refl left))
]
