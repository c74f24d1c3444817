-- ===== src/Committed/Token/Exclusion.antt =====
-- The token of crates/luminal-vgd-driver/src/modepush.rs excludes, and no update is lost from a
-- record that is not clear.
use luminal_vgd.Prelude.{
  ℕ, Bool, true, false, not, ◌&&◌, ◌||◌, refl, ◌≢◌, ◌≡◌, sym, ◌∙◌, inl, inr, Bool-cases, ◌==◌,
  ==_iff, arith,
}
use luminal_vgd.Committed.Token.{
  Shared, Pc, Move, System, update, Step, pick, init, Reach, start, later,
}
use luminal_vgd.Committed.Token.Moves.{
  holds, IsHonest, Knows, Move-Flagged, Flagged-Knows, Move-Knows, Move-IsHonest, Move-owns,
  Move-gains, Knows-nothing,
}

record Inv (s : System) : Type 0 where
  honest : s.mem.writing ≡ false → IsHonest s.mem
  owns : (i : ℕ) → holds (s.pc i) ≡ true → s.mem.writing ≡ true
  unique : (i j : ℕ) → holds (s.pc i) ≡ true → holds (s.pc j) ≡ true → i ≡ j
  knows : (i : ℕ) → Knows s.mem (s.pc i)

init-Inv : Inv init
init-Inv = record {
  honest = λ unheld lost. cc;
  owns = λ i h. cc;
  unique = λ i j h. cc;
  knows = λ i. tt;
}

module _ (s : System) (i : ℕ) {m : Shared} {p : Pc} (mv : Move s.mem (s.pc i) m p)
    (inv : Inv s) where
  -- Another owner means that the moving thread owns nothing.
  other_empty : (j : ℕ) → (j == i) ≡ false → holds (s.pc j) ≡ true → holds (s.pc i) ≡ false
  other_empty j apart h = elim (Bool-cases (holds (s.pc i))) [
    | inl own ↦ let same = inv.unique j i h own in ground (arith, same, apart)
    | inr empty ↦ empty
  ]

  pick-owns : (j : ℕ) → holds (update s.pc i p j) ≡ true → m.writing ≡ true
  pick-owns j = elim (Bool-cases (j == i)) [
    | inl same ↦ rw same (Move-owns mv (inv.owns i))
    | inr apart ↦
        rw apart (λ h.
          (Move-Flagged mv (other_empty j apart h) (inv.owns j h)).writing_same ∙ inv.owns j h)
  ]

  gained : (j : ℕ) → (j == i) ≡ false → holds p ≡ true → holds (s.pc j) ≡ true → ⊥
  gained j apart g h =
      let unheld = Move-gains mv (other_empty j apart h) g in cc (unheld, inv.owns j h)

  pick_unique :
      (j k : ℕ) → holds (update s.pc i p j) ≡ true → holds (update s.pc i p k) ≡ true → j ≡ k
  pick_unique j k = elim (Bool-cases (j == i)) [
    | inl js ↦ elim (Bool-cases (k == i)) [
      | inl ks ↦ λ _ _. (==_iff j i).0 js ∙ sym ((==_iff k i).0 ks)
      | inr ka ↦ rw (js, ka) (λ g h. absurd (gained k ka g h))
    ]
    | inr ja ↦ elim (Bool-cases (k == i)) [
      | inl ks ↦ rw (ja, ks) (λ h g. absurd (gained j ja g h))
      | inr ka ↦ rw (ja, ka) (inv.unique j k)
    ]
  ]

  pick-Knows : (j : ℕ) → Knows m (update s.pc i p j)
  pick-Knows j = elim (Bool-cases (j == i)) [
    | inl same ↦ rw same (Move-Knows mv inv.honest (inv.owns i) (inv.knows i))
    | inr apart ↦ elim (Bool-cases (holds (s.pc j))) [
      | inl h ↦ rw apart (
          Flagged-Knows (Move-Flagged mv (other_empty j apart h) (inv.owns j h)) (s.pc j)
            (inv.knows j))
      | inr empty ↦ rw apart (Knows-nothing m (s.pc j) empty)
    ]
  ]

Step-Inv : {s t : System} → Step s t → Inv s → Inv t
Step-Inv {s} (pick i mv) inv = record {
  honest = Move-IsHonest mv inv.honest (inv.owns i) (inv.knows i);
  owns = pick-owns s i mv inv;
  unique = pick_unique s i mv inv;
  knows = pick-Knows s i mv inv;
}

both_false : (a b : Bool) → (a ≡ true → b ≡ true → ⊥) → (a && b) ≡ false
both_false true true h = absurd (h refl refl)
both_false true false h = refl
both_false false b h = refl

honest_test :
    (w c d k : Bool) → (w ≡ false → d ≡ true → (c || k) ≡ true) → (w || c || not d || k) ≡ true
honest_test true c d k h = refl
honest_test false true d k h = refl
honest_test false false false k h = refl
honest_test false false true k h = h refl refl

Reach-Inv : {s : System} → Reach s → Inv s
Reach-Inv start = init-Inv
Reach-Inv (later r st) = Step-Inv st (Reach-Inv r)

-- However many writers there are and in whatever order their atomic accesses fall: no two own the
-- token at once. And once the token is free and its flag down, the record is clear, or no writer
-- has been turned away since the last commit took the token.
pub token-excludes :
    {s : System} (i j : ℕ)
    → Reach s
    → i ≢ j
    → ((holds (s.pc i) && holds (s.pc j)) ≡ false)
      × ((s.mem.writing || s.mem.contended || not s.mem.dropped || s.mem.cleared) ≡ true)
token-excludes {s} i j r apart =
    let inv = Reach-Inv r in
    (
      both_false (holds (s.pc i)) (holds (s.pc j)) (λ hi hj. apart (inv.unique i j hi hj)),
      honest_test s.mem.writing s.mem.contended s.mem.dropped s.mem.cleared inv.honest,
    )
