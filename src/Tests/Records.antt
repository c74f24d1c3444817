-- ===== src/Tests/Records.antt =====
-- The record of committed paths, its slots and its token, for
-- crates/luminal-vgd-driver/src/modepush.rs.
use luminal_vgd.Prelude.{
  not, ◌&&◌, ◌||◌, ℕ, true, false, none, some, List, [], ◌∷◌, ◌==◌, ◌≡◌, refl, if◌then◌else◌, take,
  arith,
}
use luminal_vgd.ModePush.{CommittedMode}
use luminal_vgd.Committed.{Loads, new, apply, forget, get, max_committed_paths, torn, payload, read}
use luminal_vgd.Committed.Sequential.{mode_of, get-apply}
use luminal_vgd.Committed.Seqlock.{
  World, start, opening, monitor, size, refresh, closing, Stores, here, next, Round, loads, done,
  round, WasPublished,
}
use luminal_vgd.Committed.Seqlock.Reading.{read-WasPublished}
use luminal_vgd.Committed.Token.{
  Pc, System, Reach, later, pick, init, commit, begin, busy, flag, leave, publish_slot, finish,
  count, refused, unflag, wipe, free,
}
use luminal_vgd.Committed.Token
use luminal_vgd.Committed.Token.Moves.{holds}
use luminal_vgd.Committed.Token.Exclusion.{token-excludes}

abbrev hd : CommittedMode
hd = record { width = 1920; height = 1080; refresh_millihz = 60_000 }

abbrev uhd : CommittedMode
uhd = record { width = 3840; height = 2160; refresh_millihz = 60_000 }

abbrev two_paths : List (ℕ × CommittedMode)
two_paths = (7, hd) ∷ (9, uhd) ∷ []

get-apply_example :
    (get 9 (apply two_paths 2 new).0 ≡ mode_of 9 (take max_committed_paths two_paths))
    × (get 9 (forget 7 (apply two_paths 2 new).0)
        ≡ (if 9 == 7 then none else get 9 (apply two_paths 2 new).0))
unfolding new
get-apply_example =
    get-apply new two_paths 2 7 9 (omega arith) (omega arith) (omega arith) (omega arith)
      (omega arith)

-- Monitor 7 is published.
abbrev written : (w : World) × Stores start w
written = (
  _,
  next
      (next
        (next
          (next (next here (opening _ 7 hd refl (omega arith) (omega arith)))
            (monitor _ 0 7 hd refl))
          (size _ 0 7 hd refl))
        (refresh _ 0 7 hd refl))
      (closing _ 0 7 hd refl),
)

abbrev rewriting : (w : World) × Stores written.0 w
rewriting = (_, next here (opening _ 7 uhd refl (omega arith) (omega arith)))

abbrev rewritten : (w : World) × Stores rewriting.0 w
rewritten = (
  _,
  next
      (next (next (next here (monitor _ 2 7 uhd refl)) (size _ 2 7 uhd refl))
        (refresh _ 2 7 uhd refl))
      (closing _ 2 7 uhd refl),
)

-- A commit begins during the first round and ends before the second.
abbrev first_round : Round written.0 rewritten.0
first_round = record {
  first = written.0;
  second = rewriting.0;
  third = rewriting.0;
  fourth = rewriting.0;
  begun = here;
  to_second = rewriting.1;
  to_third = here;
  to_fourth = here;
  ended = rewritten.1;
  brief = omega arith;
}

abbrev second_round : Round rewritten.0 rewritten.0
second_round = record {
  first = rewritten.0;
  second = rewritten.0;
  third = rewritten.0;
  fourth = rewritten.0;
  begun = here;
  to_second = here;
  to_third = here;
  to_fourth = here;
  ended = here;
  brief = omega arith;
}

abbrev both_rounds : List Loads
both_rounds = loads first_round ∷ loads second_round ∷ []

found : read both_rounds ≡ some (7, uhd)
unfolding read torn payload
found = refl

read-WasPublished_example : WasPublished written.0 7 uhd
read-WasPublished_example =
    read-WasPublished written.1 (round first_round refl (round second_round refl done)) found

abbrev Run : Type 0
Run = (s : System) × Reach s

abbrev at_work : Run
at_work = (
  _,
  later (later (later Reach.start (pick 0 (begin commit))) (pick 0 (Token.take commit 3 refl)))
      (pick 0 publish_slot),
)

-- A second writer is turned away while the first one writes.
abbrev turned : Run
turned = (
  _,
  later (later (later at_work.1 (pick 1 (begin commit))) (pick 1 (busy commit 3 refl)))
      (pick 1 (flag commit 3 refl)),
)

-- The first one clears the record before it frees the token.
abbrev freed : Run
freed = (
  _,
  later
      (later
        (later
          (later
            (later (later (later turned.1 (pick 0 (finish commit))) (pick 0 (count 3)))
              (pick 0 (refused 3 refl)))
            (pick 0 (unflag 3)))
          (pick 0 (wipe 3)))
        (pick 0 (count 2)))
      (pick 0 (free 2 refl)),
)

token-excludes_example :
    ((holds (freed.0.pc 0) && holds (freed.0.pc 1)) ≡ false)
    × ((freed.0.mem.writing
          || freed.0.mem.contended
          || not freed.0.mem.dropped
          || freed.0.mem.cleared)
        ≡ true)
token-excludes_example = token-excludes 0 1 freed.1 (omega arith)
