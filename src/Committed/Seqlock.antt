-- ===== src/Committed/Seqlock.antt =====
-- A slot of crates/luminal-vgd-driver/src/modepush.rs while a commit rewrites it: the stores of
-- `publish` and the loads of `read`, interleaved in any order. A memory access is one step, and the
-- accesses of a thread keep their order, which is what the fences are for.
pub mod Coherence
pub mod Reading
use luminal_vgd.Prelude.{
  ℕ, zero, suc, ◌+◌, ◌*◌, ◌/◌, ◌%◌, ◌^◌, ◌<◌, ◌≤◌, Bool, true, false, not, Option, none, some, List,
  [], ◌∷◌, ◌≡◌, ◌≢◌, refl, ap, sym, subst, ◌∙◌, inl, inr, Bool-cases, ◌==◌, if◌then◌else◌,
  some-injective, arith,
}
use luminal_vgd.ModePush.{CommittedMode}
use luminal_vgd.Committed.{
  CommittedSlot, Loads, still, new_slot, no_mode, pack_size, publish, torn, payload, read,
}
use luminal_vgd.Committed.Sequential.{payload-publish}

-- Where the writer stands in `publish`: nowhere, or after a store, with the version that it loaded.
pub data Phase : Type 0 where
  idle : Phase
  opened monitor_stored size_stored refresh_stored : ℕ → ℕ → CommittedMode → Phase

pub record World : Type 0 where
  pub slot : CommittedSlot
  pub phase : Phase
  -- the pairing that was published last, and the stores to the version, without its wrap-around
  pub published : ℕ × CommittedMode
  pub count : ℕ

abbrev pub start : World
start = record { slot = new_slot; phase = idle; published = (0, no_mode); count = 0 }

pub data Store : World → World → Type 0 where
  opening :
      (w : World) (m : ℕ) (mode : CommittedMode)
      → w.phase ≡ idle
      → mode.width < 2 ^ 32
      → mode.height < 2 ^ 32
      → Store w (record w {
        slot = record w.slot { version = (w.slot.version + 1) % 2 ^ 32 };
        phase = opened w.slot.version m mode;
        count = w.count + 1;
      })
  monitor :
      (w : World) (v m : ℕ) (mode : CommittedMode)
      → w.phase ≡ opened v m mode
      → Store w (record w { slot = record w.slot { monitor = m }; phase = monitor_stored v m mode })
  size :
      (w : World) (v m : ℕ) (mode : CommittedMode)
      → w.phase ≡ monitor_stored v m mode
      → Store w (record w {
        slot = record w.slot { size = pack_size mode };
        phase = size_stored v m mode;
      })
  refresh :
      (w : World) (v m : ℕ) (mode : CommittedMode)
      → w.phase ≡ size_stored v m mode
      → Store w (record w {
        slot = record w.slot { refresh_millihz = mode.refresh_millihz };
        phase = refresh_stored v m mode;
      })
  closing :
      (w : World) (v m : ℕ) (mode : CommittedMode)
      → w.phase ≡ refresh_stored v m mode
      → Store w (record w {
        slot = record w.slot { version = (v + 2) % 2 ^ 32 };
        phase = idle;
        published = (m, mode);
        count = w.count + 1;
      })

pub data Stores (w : World) : World → Type 0 where
  here : Stores w w
  next : {v u : World} → Stores w v → Store v u → Stores w u

-- The loads of one round of `read`, with stores before and between them.
pub record Round (w u : World) : Type 0 where
  pub first : World
  pub second : World
  pub third : World
  pub fourth : World
  pub begun : Stores w first
  pub to_second : Stores first second
  pub to_third : Stores second third
  pub to_fourth : Stores third fourth
  pub ended : Stores fourth u
  -- the version does not come round to the same number while a round lasts
  pub brief : u.count < first.count + 2 ^ 32

abbrev pub loads : {w u : World} → Round w u → Loads
loads {u = u} r = record {
  before = r.first.slot;
  at_monitor = r.second.slot;
  at_size = r.third.slot;
  at_refresh = r.fourth.slot;
  after = u.slot;
}

-- The rounds of `read`, one after another.
pub data Rounds : World → List Loads → World → Type 0 where
  done : {w : World} → Rounds w [] w
  round :
      {w v u : World} {l : Loads} {rest : List Loads} (r : Round w v)
      → l ≡ loads r
      → Rounds v rest u
      → Rounds w (l ∷ rest) u

-- A pairing was published at some point between two worlds, and nothing was being written there.
pub record WasPublished (w : World) (m : ℕ) (mode : CommittedMode) : Type 0 where
  pub when : World
  pub reached : Stores w when
  pub resting : when.phase ≡ idle
  pub was : when.published ≡ (m, mode)
  pub real : m ≢ 0
