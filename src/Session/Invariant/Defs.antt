-- ===== src/Session/Invariant/Defs.antt =====
-- What holds of the table and of each monitor in crates/luminal-vgd-core/src/session.rs.
use luminal_vgd.Prelude.{
  ℕ, ◌≤◌, ◌≡◌, refl, sym, subst, ap, ◌∙◌, ◌≢◌, inl, inr, some, List, [], arith, Bool-cases, In,
  length, ◌==◌,
}
use luminal_vgd.Prelude.Map.{
  Map, lookup, insert, Ascending, lookup-insert, length-insert_old, insert-Ascending,
}
use luminal_vgd.Modes.{Mode}
use luminal_vgd.Identity
use luminal_vgd.Identity.Table
use luminal_vgd.Session.State.{Monitor, PendingTargets, SessionTable, new}

-- A list that may be published: not empty, and within the superset of the monitor.
pub record IsPublishable (superset targets : List Mode) : Type 0 where
  pub not_empty : targets ≢ []
  pub within : (x : Mode) → In x targets → In x superset

-- A monitor under the key `k`, in a table whose last update is `issued` and whose connectors are
-- reserved as in `reservations`.
pub record IsMonitor (issued : ℕ) (reservations : Map ℕ) (k : ℕ) (m : Monitor) : Type 0 where
  pub keyed : m.session_id ≡ k
  pub in_force : IsPublishable m.modes m.target_modes
  pub outstanding :
      (p : PendingTargets) → m.pending_targets ≡ some p → IsPublishable m.modes p.targets
  pub ordered : (p : PendingTargets) → m.pending_targets ≡ some p → p.seq ≤ issued
  pub settled_below : m.settled_seq ≤ issued
  pub reserved : lookup m.display_id reservations ≡ some m.connector_index

pub record IsValid (t : SessionTable) : Type 0 where
  pub connectors : Table.IsValid t.connectors
  pub one_each : t.connectors.max_connectors ≡ t.max_monitors
  pub capped : t.max_monitors ≤ 16
  pub sorted : Ascending 0 t.monitors
  pub bounded : length t.monitors ≤ t.max_monitors
  pub monitors :
      (k : ℕ) (m : Monitor)
      → lookup k t.monitors ≡ some m
      → IsMonitor t.update_seq t.connectors.reservations k m
  pub identities :
      (j k : ℕ) (m n : Monitor)
      → lookup j t.monitors ≡ some m
      → lookup k t.monitors ≡ some n
      → m.display_id ≡ n.display_id
      → j ≡ k

-- Two live monitors of a valid table, under different session identifiers, have different
-- connectors.
pub connectors_apart :
    (t : SessionTable) (j k : ℕ) (m n : Monitor)
    → IsValid t
    → j ≢ k
    → lookup j t.monitors ≡ some m
    → lookup k t.monitors ≡ some n
    → m.connector_index ≢ n.connector_index
connectors_apart t j k m n v other p q e =
    let a = (v.monitors j m p).reserved in
    let b = (v.monitors k n q).reserved in
    other (
      v.identities j k m n p q
        (v.connectors.apart m.display_id n.display_id m.connector_index a (b ∙ ap some (sym e))))

-- A later update, and other reservations that keep this one's, leave a monitor well-formed.
pub IsMonitor-mono :
    {issued later : ℕ} {res res' : Map ℕ} {k : ℕ} {m : Monitor}
    → issued ≤ later
    → (lookup m.display_id res ≡ some m.connector_index
        → lookup m.display_id res' ≡ some m.connector_index)
    → IsMonitor issued res k m
    → IsMonitor later res' k m
IsMonitor-mono h f w = record {
  keyed = w.keyed;
  in_force = w.in_force;
  outstanding = w.outstanding;
  ordered = λ p e. omega (arith, w.ordered p e);
  settled_below = omega (arith, w.settled_below);
  reserved = f w.reserved;
}

-- What is found after a monitor is stored.
pub found_cases {ℓ} :
    {P : Type ℓ} (k j : ℕ) (m n : Monitor) (ms : Map Monitor)
    → lookup j (insert k m ms) ≡ some n
    → (j ≡ k → n ≡ m → P)
    → (j ≢ k → lookup j ms ≡ some n → P)
    → P
found_cases k j m n ms e here there = elim (Bool-cases (k == j)) [
  | inl same ↦ here (ground arith) (ground (arith, lookup-insert k j m ms))
  | inr other ↦ there (ground arith) (ground (arith, lookup-insert k j m ms))
]

-- A monitor is replaced by one with the same identity.
pub replace-IsValid :
    (t : SessionTable) (k seq : ℕ) (old m : Monitor)
    → IsValid t
    → t.update_seq ≤ seq
    → lookup k t.monitors ≡ some old
    → m.display_id ≡ old.display_id
    → IsMonitor seq t.connectors.reservations k m
    → IsValid (record t { update_seq = seq; monitors = insert k m t.monitors })
replace-IsValid t k seq old m v later here same w = record {
  connectors = v.connectors;
  one_each = v.one_each;
  capped = v.capped;
  sorted = insert-Ascending 0 k m t.monitors (omega arith) v.sorted;
  bounded = omega (arith, length-insert_old 0 k old m t.monitors v.sorted here, v.bounded);
  monitors = λ j n e.
      found_cases k j m n t.monitors e
        (λ p q.
          subst (λ x. IsMonitor seq t.connectors.reservations x n) (sym p)
            (subst (IsMonitor seq t.connectors.reservations k) (sym q) w))
        (λ p q. IsMonitor-mono later (λ x. x) (v.monitors j n q));
  identities = λ i j n n' e f q.
      found_cases k i m n t.monitors e
        (λ a b.
          found_cases k j m n' t.monitors f (λ c d. a ∙ sym c)
            (λ c d.
              a ∙ v.identities k j old n' here d (sym same ∙ ap (λ x. x.display_id) (sym b) ∙ q)))
        (λ a b.
          found_cases k j m n' t.monitors f
            (λ c d. v.identities i k n old b here (q ∙ ap (λ x. x.display_id) d ∙ same) ∙ sym c)
            (λ c d. v.identities i j n n' b d q));
}

pub new-IsValid : (limit watchdog : ℕ) → IsValid (new limit watchdog)
unfolding new Identity.new
new-IsValid limit watchdog = record {
  connectors = Table.new-IsValid _;
  one_each = refl;
  capped = omega arith;
  sorted = tt;
  bounded = omega arith;
  monitors = λ k m e. cc;
  identities = λ j k m n e. cc;
}
