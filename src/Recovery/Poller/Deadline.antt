-- ===== src/Recovery/Poller/Deadline.antt =====
-- The poller of crates/luminal-vgd-driver/src/shell/control.rs ends.
use luminal_vgd.Prelude.{
  ℕ, ◌+◌, ◌≤◌, List, [], ◌∷◌, ◌≡◌, ◌≢◌, ◌⊎◌, refl, sym, subst, inl, inr, arith,
}
use luminal_vgd.Recovery.{Shell}
use luminal_vgd.Recovery.Poller.{
  Poller, Reading, Next, going, ended, rechecking, probe_step, spawn_probe, check_probe, give_over,
  poller_round, poll, tdr_recovery_budget_ms,
}

-- A probe step leaves the start, the epoch and the sessions.
pub probe_step-started : (r : Reading) (p : Poller) → (probe_step r p).started ≡ p.started
unfolding probe_step spawn_probe check_probe
probe_step-started r p = ground arith

poller_round-ends :
    (r : Reading) (p p' : Poller) (s : Shell)
    → p.started + tdr_recovery_budget_ms ≤ r.now
    → (poller_round r p s).0 ≢ going p'
unfolding poller_round give_over
poller_round-ends r p p' s late = λ on. ground (arith, probe_step-started r p, on)

poller_round-started :
    (r : Reading) (p p' : Poller) (s : Shell)
    → (poller_round r p s).0 ≡ going p'
    → p'.started ≡ p.started
unfolding poller_round give_over
poller_round-started r p p' s on = ground (arith, probe_step-started r p)

-- A round of the list comes when the budget is spent.
abbrev pub Late : ℕ → List Reading → Type 0
Late started [] = ⊥
Late started (r ∷ rs) = (started + tdr_recovery_budget_ms ≤ r.now) ⊎ Late started rs

abbrev InTime : Next → List Reading → Type 0
InTime (going p) rs = Late p.started rs
InTime _ rs = Unit {0}

round-InTime :
    (r : Reading) (rs : List Reading) (p : Poller) (s : Shell)
    → Late p.started (r ∷ rs)
    → (n : Next) → (poller_round r p s).0 ≡ n
    → InTime n rs
round-InTime r rs p s (inl now) (going q) on = absurd (poller_round-ends r p q s now on)
round-InTime r rs p s (inr later) (going q) on =
    subst (λ k. Late k rs) (sym (poller_round-started r p q s on)) later
round-InTime r rs p s late ended on = tt
round-InTime r rs p s late (rechecking sids) on = tt

poll-over :
    (rs : List Reading) (n : Next) (s : Shell) (p' : Poller)
    → InTime n rs
    → (poll rs (n, s)).0 ≢ going p'
unfolding poll
poll-over [] (going p) s p' late = absurd late
poll-over [] ended s p' late = λ e. cc
poll-over [] (rechecking sids) s p' late = λ e. cc
poll-over (r ∷ rs) ended s p' late = λ e. cc
poll-over (r ∷ rs) (rechecking sids) s p' late = λ e. cc
poll-over (r ∷ rs) (going p) s p' late =
    let (n, s') = poller_round r p s in poll-over rs n s' p' (round-InTime r rs p s late n refl)

-- A device duck is not watched for ever: whatever the rounds of the poller read, and whether or
-- not a probe thread hangs, the poller has ended once a round has begun after its budget of ten
-- minutes.
pub poll-ends :
    (rs : List Reading) (p p' : Poller) (s : Shell)
    → Late p.started rs
    → (poll rs (going p, s)).0 ≢ going p'
poll-ends rs p p' s late = poll-over rs (going p) s p' late
