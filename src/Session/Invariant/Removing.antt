-- ===== src/Session/Invariant/Removing.antt =====
-- Removing monitors keeps the invariant of crates/luminal-vgd-core/src/session.rs.
use luminal_vgd.Prelude.{
  ℕ, ◌≡◌, refl, sym, ap, ◌≢◌, inl, inr, some, List, [], ◌∷◌, arith, Bool-cases, Option-cases, In,
  ==_refl,
}
use luminal_vgd.Prelude.Map.{
  Map, lookup, remove, keys, lookup-remove, remove-Ascending, length-remove-le, lookup→In_keys,
}
use luminal_vgd.Identity.{release}
use luminal_vgd.Identity.Table
use luminal_vgd.Session.State.{Monitor, SessionTable}
use luminal_vgd.Session.Removal.{take_out, destroy, destroy_each, destroy_all}
use luminal_vgd.Session.Invariant.Defs.{IsValid, IsMonitor-mono}

-- What is found after a removal was there before, under another key.
pub found_after_removal :
    (k j : ℕ) (n : Monitor) (ms : Map Monitor)
    → lookup j (remove k ms) ≡ some n
    → (k ≢ j) × (lookup j ms ≡ some n)
found_after_removal k j n ms e =
    (λ q. ground (arith, lookup-remove k j ms), ground (arith, lookup-remove k j ms))

kept_by_removal :
    (d e c : ℕ) (m : Map ℕ) → d ≢ e → lookup e m ≡ some c → lookup e (remove d m) ≡ some c
kept_by_removal d e c m n h = ground (arith, lookup-remove d e m)

pub take_out-IsValid :
    (t : SessionTable) (k : ℕ) (m : Monitor)
    → IsValid t
    → lookup k t.monitors ≡ some m
    → IsValid (take_out t k m)
unfolding take_out release
take_out-IsValid t k m v here = elim (Bool-cases m.ephemeral_identity) [
  | inl freed ↦
      rw (freed, take_out)
        (record {
          connectors = Table.release-IsValid t.connectors m.display_id v.connectors;
          one_each = v.one_each;
          capped = v.capped;
          sorted = remove-Ascending 0 k t.monitors v.sorted;
          bounded = omega (arith, length-remove-le k t.monitors, v.bounded);
          monitors = λ j n e.
              let (other, e') = found_after_removal k j n t.monitors e in
              IsMonitor-mono (omega arith)
                (kept_by_removal m.display_id n.display_id n.connector_index
                  t.connectors.reservations (λ q. other (v.identities k j m n here e' q)))
                (v.monitors j n e');
          identities = λ i j n n' e f q.
              v.identities i j n n' (found_after_removal k i n t.monitors e).1
                (found_after_removal k j n' t.monitors f).1 q;
        })
  | inr kept ↦
      rw (kept, take_out)
        (record {
          connectors = v.connectors;
          one_each = v.one_each;
          capped = v.capped;
          sorted = remove-Ascending 0 k t.monitors v.sorted;
          bounded = omega (arith, length-remove-le k t.monitors, v.bounded);
          monitors = λ j n e. v.monitors j n (found_after_removal k j n t.monitors e).1;
          identities = λ i j n n' e f q.
              v.identities i j n n' (found_after_removal k i n t.monitors e).1
                (found_after_removal k j n' t.monitors f).1 q;
        })
]

-- Destroying a session, live or not, keeps the table valid.
pub destroy-IsValid : (t : SessionTable) (k : ℕ) → IsValid t → IsValid (destroy t k).1
unfolding destroy
destroy-IsValid t k v = elim (Option-cases (lookup k t.monitors)) [
  | inl e ↦ rw (e, destroy) v
  | inr (m, e) ↦ rw (e, destroy) (take_out-IsValid t k m v e)
]

destroy_each-IsValid : (t : SessionTable) (ids : List ℕ) → IsValid t → IsValid (destroy_each t ids)
unfolding destroy_each
destroy_each-IsValid t [] v = v
destroy_each-IsValid t (id ∷ ids) v =
    destroy_each-IsValid (destroy t id).1 ids (destroy-IsValid t id v)

found_after_destroy :
    (t : SessionTable) (k j : ℕ) (n : Monitor)
    → lookup j (destroy t k).1.monitors ≡ some n
    → (k ≢ j) × (lookup j t.monitors ≡ some n)
unfolding destroy take_out
found_after_destroy t k j n e = elim (Option-cases (lookup k t.monitors)) [
  | inl missing ↦
      let e' : lookup j t.monitors ≡ some n = rw (missing, destroy) at e in
      (λ q. ground (arith, ap (λ x. lookup x t.monitors) q), e')
  | inr (m, here) ↦ found_after_removal k j n t.monitors (rw (here, destroy) at e)
]

found_after_destroy_each :
    (t : SessionTable) (ids : List ℕ) (j : ℕ) (n : Monitor)
    → lookup j (destroy_each t ids).monitors ≡ some n
    → (¬ In j ids) × (lookup j t.monitors ≡ some n)
unfolding destroy_each
found_after_destroy_each t [] j n e = (λ h. h, e)
found_after_destroy_each t (id ∷ ids) j n e =
    let (out, e') = found_after_destroy_each (destroy t id).1 ids j n e in
    let (other, e'') = found_after_destroy t id j n e' in
    (λ h. elim h [ inl q ↦ other (sym q) | inr i ↦ out i ], e'')

nothing_found : (ms : Map Monitor) → ((k : ℕ) (m : Monitor) → lookup k ms ≢ some m) → ms ≡ []
nothing_found [] h = refl
nothing_found ((k, m) ∷ ms) h = absurd (h k m (rw (==_refl k) refl))

-- Destroying all sessions of a valid table leaves a valid table without monitors.
pub destroy_all-empty :
    (t : SessionTable) → IsValid t → IsValid (destroy_all t) × ((destroy_all t).monitors ≡ [])
unfolding destroy_all
destroy_all-empty t v = (
  destroy_each-IsValid t (keys t.monitors) v,
  nothing_found _ (λ k m e.
      let (out, e') = found_after_destroy_each t (keys t.monitors) k m e in
      out (lookup→In_keys k t.monitors e')),
)
