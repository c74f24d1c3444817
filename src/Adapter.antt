-- ===== src/Adapter.antt =====
-- crates/luminal-vgd-core/src/adapter.rs: choosing the render adapter.
pub mod Selection
use Prim.Native.String.{String}
use luminal_vgd.Prelude.{
  ℕ, Bool, true, false, not, ◌&&◌, ◌||◌, Option, none, some, List, [], ◌∷◌, ltb, ◌==◌,
  if◌then◌else◌, ok_or,
}
use luminal_vgd.Error.{Fallible, no_adapter}

pub record AdapterInfo : Type 0 where
  pub luid : ℕ
  pub vram_bytes : ℕ
  pub name : String
  pub software : Bool

-- `iter().find(|a| a.luid == requested_luid && !a.software).map(|a| a.luid)`
unfoldable pub find_luid : List AdapterInfo → ℕ → Option ℕ
find_luid [] requested_luid = none
find_luid (a ∷ rest) requested_luid =
    if a.luid == requested_luid && not a.software
    then some a.luid
    else find_luid rest requested_luid

unfoldable pub hardware : List AdapterInfo → List AdapterInfo
hardware [] = []
hardware (a ∷ rest) = let others = hardware rest in if a.software then others else a ∷ others

-- The comparison `a.vram_bytes.cmp(&b.vram_bytes).then(b.luid.cmp(&a.luid))` gives `Greater`.
unfoldable pub is_greater : AdapterInfo → AdapterInfo → Bool
is_greater a b = ltb b.vram_bytes a.vram_bytes || a.vram_bytes == b.vram_bytes && ltb a.luid b.luid

-- `max_by` keeps the element so far only where it is greater than the next.
unfoldable pub greatest : AdapterInfo → List AdapterInfo → AdapterInfo
greatest best [] = best
greatest best (a ∷ rest) = greatest (if is_greater best a then best else a) rest

unfoldable pub max_by_vram : List AdapterInfo → Option ℕ
unfolding greatest is_greater
max_by_vram [] = none
max_by_vram (a ∷ rest) = some ((greatest a rest).luid)

unfoldable pub select_adapter : List AdapterInfo → ℕ → Fallible ℕ
unfolding find_luid hardware max_by_vram
select_adapter adapters requested_luid =
    if not (requested_luid == 0)
    then ok_or (find_luid adapters requested_luid) no_adapter
    else ok_or (max_by_vram (hardware adapters)) no_adapter
