-- ===== src/Identity.antt =====
-- crates/luminal-vgd-core/src/identity.rs: display identities and the connector each one keeps.
pub mod Ranges
pub mod Table
pub mod Search
pub mod Connectors
pub mod Retention
use luminal_vgd.Prelude.{
  ℕ, zero, suc, ◌+◌, ◌-◌, ◌*◌, ◌/◌, ◌%◌, ◌^◌, Bool, not, ◌&&◌, Option, none, some, List, [], ◌∷◌,
  ltb, ◌==◌, if◌then◌else◌, nat_eq, contains, bit_and, bit_or, bit_xor,
}
use luminal_vgd.Prelude.Map.{Map, lookup, insert, remove, keys, values}

abbrev pub permanent_display_id_base : ℕ
permanent_display_id_base = 0x7000_0000_0000_0000

abbrev pub ephemeral_display_id_base : ℕ
ephemeral_display_id_base = 0xE000_0000_0000_0000

abbrev pub permanent_product_code_base : ℕ
permanent_product_code_base = 0x4000

abbrev pub temporary_product_code_base : ℕ
temporary_product_code_base = 0x5000

unfoldable pub permanent_display_id : ℕ → ℕ
permanent_display_id index = bit_or permanent_display_id_base index

unfoldable pub is_permanent_display_id : ℕ → Bool
is_permanent_display_id display_id =
    bit_and display_id 0xF000_0000_0000_0000 == permanent_display_id_base

unfoldable pub ephemeral_display_id : ℕ → ℕ
ephemeral_display_id session_id =
    bit_or ephemeral_display_id_base (bit_and session_id 0x0FFF_FFFF_FFFF_FFFF)

-- `as u16` and `wrapping_add`
unfoldable pub permanent_product_code : ℕ → ℕ
permanent_product_code index = (permanent_product_code_base + index % 2 ^ 16) % 2 ^ 16

unfoldable pub temporary_product_code : ℕ → ℕ
temporary_product_code connector_index =
    (temporary_product_code_base + connector_index % 2 ^ 16) % 2 ^ 16

unfoldable pub serial_from_display_id : ℕ → ℕ
serial_from_display_id display_id = bit_xor display_id (display_id / 2 ^ 32) % 2 ^ 32

pub record ConnectorTable : Type 0 where
  pub max_connectors : ℕ
  pub reservations : Map ℕ
  pub next_age : ℕ
  pub last_used : Map ℕ

unfoldable pub new : ℕ → ConnectorTable
new max_connectors = record {
  max_connectors = max_connectors;
  reservations = [];
  next_age = 0;
  last_used = [];
}

-- `reservations`, as pairs
abbrev pub entries : ConnectorTable → List (ℕ × ℕ)
entries t = t.reservations

abbrev pub next_age_of : ℕ → ℕ
next_age_of age = (age + 1) % 2 ^ 64

-- The reservation of `connector` for `display_id`, used at `age`.
unfoldable pub reserve : ConnectorTable → ℕ → ℕ → ℕ → ConnectorTable
reserve t display_id connector age = record t {
  reservations = insert display_id connector t.reservations;
  last_used = insert display_id age t.last_used;
}

-- One round of `restore`.
unfoldable pub restore_one : ConnectorTable → ℕ → ℕ → ConnectorTable
restore_one t display_id connector =
    if ltb connector t.max_connectors && not (contains (values t.reservations) connector)
    then reserve (record t { next_age = next_age_of t.next_age }) display_id connector t.next_age
    else t

unfoldable pub restore : ConnectorTable → List (ℕ × ℕ) → ConnectorTable
restore t [] = t
restore t ((display_id, connector) ∷ rest) = restore (restore_one t display_id connector) rest

-- `(from..from + n).find(|c| !used.contains(c))`
unfoldable pub find_free : List ℕ → ℕ → ℕ → Option ℕ
find_free used from zero = none
find_free used from (suc n) =
    let later = find_free used (from + 1) n in if not (contains used from) then some from else later

-- `.keys().filter(|d| !active.contains(d))`
unfoldable pub idle_keys : List ℕ → List ℕ → List ℕ
idle_keys active [] = []
idle_keys active (d ∷ ds) =
    let rest = idle_keys active ds in if not (contains active d) then d ∷ rest else rest

-- `last_used.get(d).copied().unwrap_or(0)`
unfoldable pub age_of : Map ℕ → ℕ → ℕ
age_of last_used d = elim (lookup d last_used) [ none ↦ 0 | some age ↦ age ]

-- `min_by_key` keeps the first of several least elements.
unfoldable pub least_used : Map ℕ → ℕ → List ℕ → ℕ
least_used last_used best [] = best
least_used last_used best (d ∷ ds) =
    least_used last_used (if ltb (age_of last_used d) (age_of last_used best) then d else best) ds

unfoldable pub victim : Map ℕ → List ℕ → Option ℕ
victim last_used [] = none
victim last_used (d ∷ ds) = some (least_used last_used d ds)

-- The eviction of `v`: its connector, and the table without it. The key comes from the table, so
-- the source's `expect` cannot fail; `none` stands for that panic.
unfoldable pub evict : ConnectorTable → ℕ → Option (ℕ × ConnectorTable)
evict t v = elim (lookup v t.reservations) [
  | none ↦ none
  | some c ↦
      some
        (c, record t { reservations = remove v t.reservations; last_used = remove v t.last_used })
]

-- The connector for a new reservation, where no connector is free.
unfoldable pub claim_evicted : ConnectorTable → ℕ → ℕ → Option ℕ → Option ℕ × ConnectorTable
claim_evicted t display_id age none = (none, t)
claim_evicted t display_id age (some v) = elim (evict t v) [
  | none ↦ (none, t)
  | some r ↦ (some r.0, reserve r.1 display_id r.0 age)
]

-- The second half of `acquire`, for an identity with no reservation.
unfoldable pub claim : ConnectorTable → ℕ → List ℕ → ℕ → Option ℕ × ConnectorTable
claim t display_id active age = elim (find_free (values t.reservations) 0 t.max_connectors) [
  | some c ↦ (some c, reserve t display_id c age)
  | none ↦
      claim_evicted t display_id age (victim t.last_used (idle_keys active (keys t.reservations)))
]

unfoldable pub acquire : ConnectorTable → ℕ → List ℕ → Option ℕ × ConnectorTable
acquire t display_id active =
    let age = t.next_age in
    let aged : ConnectorTable = record t { next_age = next_age_of t.next_age } in
    elim (lookup display_id t.reservations) [
      | some c ↦ (some c, record aged { last_used = insert display_id age aged.last_used })
      | none ↦ claim aged display_id active age
    ]

unfoldable pub release : ConnectorTable → ℕ → ConnectorTable
release t display_id = record t {
  reservations = remove display_id t.reservations;
  last_used = remove display_id t.last_used;
}
