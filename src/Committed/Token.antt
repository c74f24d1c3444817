-- ===== src/Committed/Token.antt =====
-- The writer token of `CommittedPaths` in crates/luminal-vgd-driver/src/modepush.rs: any number of
-- writers, each atomic access one step. A writer commits or forgets; what it writes is told as
-- whether the record is clear.
pub mod Moves
pub mod Exclusion
use luminal_vgd.Prelude.{
  ℕ, zero, suc, ◌+◌, ◌%◌, ◌^◌, Bool, true, false, not, ◌&&◌, ◌≡◌, ◌==◌, if◌then◌else◌,
}

abbrev pub acquire_attempts : ℕ
acquire_attempts = 4

abbrev pub release_attempts : ℕ
release_attempts = 4

pub record Shared : Type 0 where
  -- `state`: the bits `WRITING` and `CONTENDED`
  pub writing : Bool
  pub contended : Bool
  pub generation : ℕ
  -- every slot is clear
  pub cleared : Bool
  -- a writer has been turned away since the last commit took the token
  pub dropped : Bool

pub data Job : Type 0 where
  commit departure : Job

pub data Pc : Type 0 where
  idle : Pc
  -- `begin_write`, with the attempts left
  acquiring flagging : Job → ℕ → Pc
  turned_away : Pc
  -- the loop over the slots
  writing_slots : Job → Pc
  -- `release`, with the attempts left
  releasing offering unflagging wiping : ℕ → Pc
  handing_back : Pc

-- The values for which a compare-exchange against `WRITING` succeeds.
abbrev pub is_only_writing : Shared → Bool
is_only_writing m = m.writing && not m.contended

abbrev pub next_generation : Shared → ℕ
next_generation m = (m.generation + 1) % 2 ^ 64

abbrev pub after_taking : Job → Shared → Shared
after_taking commit m = record m { writing = true; dropped = false }
after_taking departure m = record m { writing = true }

pub data Move (m : Shared) : Pc → Shared → Pc → Type 0 where
  begin : (job : Job) → Move m idle m (acquiring job acquire_attempts)
  -- `fetch_or(WRITING)` on a free token, and on one that is held
  take :
      (job : Job) (k : ℕ)
      → m.writing ≡ false
      → Move m (acquiring job (suc k)) (after_taking job m) (writing_slots job)
  busy : (job : Job) (k : ℕ) → m.writing ≡ true → Move m (acquiring job (suc k)) m (flagging job k)
  -- `compare_exchange(WRITING, WRITING | CONTENDED)`
  flag :
      (job : Job) (k : ℕ)
      → is_only_writing m ≡ true
      → Move m (flagging job k) (record m { contended = true; dropped = true }) turned_away
  retry :
      (job : Job) (k : ℕ) → is_only_writing m ≡ false → Move m (flagging job k) m (acquiring job k)
  -- `fetch_or(CONTENDED)`, after the attempts
  give_up :
      (job : Job)
      → Move m (acquiring job zero) (record m { contended = true; dropped = true }) turned_away
  leave : Move m turned_away (record m { generation = next_generation m }) idle
  -- a commit publishes a slot; clearing some slots changes nothing here
  publish_slot : Move m (writing_slots commit) (record m { cleared = false }) (writing_slots commit)
  finish : (job : Job) → Move m (writing_slots job) m (releasing release_attempts)
  count :
      (k : ℕ)
      → Move m (releasing (suc k)) (record m { generation = next_generation m }) (offering k)
  -- `compare_exchange(WRITING, FREE)`
  free :
      (k : ℕ)
      → is_only_writing m ≡ true
      → Move m (offering k) (record m { writing = false; contended = false }) idle
  refused : (k : ℕ) → is_only_writing m ≡ false → Move m (offering k) m (unflagging k)
  -- `fetch_and(!CONTENDED)`, and the loop that clears the slots
  unflag : (k : ℕ) → Move m (unflagging k) (record m { contended = false }) (wiping k)
  wipe : (k : ℕ) → Move m (wiping k) (record m { cleared = true }) (releasing k)
  last_count : Move m (releasing zero) (record m { generation = next_generation m }) handing_back
  -- `store(FREE)`
  hand_back : Move m handing_back (record m { writing = false; contended = false }) idle

pub record System : Type 0 where
  pub mem : Shared
  pub pc : ℕ → Pc

abbrev pub update : (ℕ → Pc) → ℕ → Pc → ℕ → Pc
update pc i p j = if j == i then p else pc j

pub data Step (s : System) : System → Type 0 where
  pick :
      (i : ℕ) {m : Shared} {p : Pc}
      → Move s.mem (s.pc i) m p
      → Step s (record { mem = m; pc = update s.pc i p })

-- `new`, with no writer under way
abbrev pub init : System
init = record {
  mem = record {
    writing = false;
    contended = false;
    generation = 0;
    cleared = true;
    dropped = false;
  };
  pc = λ _. idle;
}

pub data Reach : System → Type 0 where
  start : Reach init
  later : {s t : System} → Reach s → Step s t → Reach t
