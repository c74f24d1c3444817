-- ===== src/Session/Invariant/Creating.antt =====
-- Creating a monitor keeps the invariant of crates/luminal-vgd-core/src/session.rs.
use luminal_vgd.Prelude.{
  ℕ, ◌%◌, ◌^◌, ◌<◌, ◌≡◌, refl, sym, subst, ap, ◌∙◌, ◌≢◌, inl, inr, false, Option, none, some, List,
  [], ◌∷◌, arith, Bool-cases, leb, ◌||◌, Result-cases, ok, In, length, contains, not-contains→In,
  nat_eq,
}
use luminal_vgd.Prelude.Map.{
  Map, lookup, values, insert-Ascending, length-insert_fresh, lookup→In_values,
}
use luminal_vgd.Proto.{CreateMonitorRequest}
use luminal_vgd.Adapter.{AdapterInfo}
use luminal_vgd.Modes.{validate_list}
use luminal_vgd.Modes.Lists.{length-validate_list}
use luminal_vgd.Identity.{
  ConnectorTable, acquire, ephemeral_display_id_base, is_permanent_display_id,
}
use luminal_vgd.Identity.Table
use luminal_vgd.Identity.Retention.{
  acquire-IsValid, acquire-given, acquire-keeps_active, max_connectors-acquire,
}
use luminal_vgd.Session.State.{Monitor, SessionTable}
use luminal_vgd.Session.Create.{
  Admitted, admit, display_ids, identity_of, monitor_of, plug, create_trusted, create,
}
use luminal_vgd.Session.Invariant.Defs.{IsMonitor, IsValid, IsMonitor-mono, found_cases}

-- The monitors' identities are the ones that `acquire` is told are active.
In-display_ids : (ms : List Monitor) (m : Monitor) → In m ms → In m.display_id (display_ids ms)
unfolding display_ids
In-display_ids [] m h = absurd h
In-display_ids (x ∷ ms) m (inl e) = inl (ap (λ y. y.display_id) e)
In-display_ids (x ∷ ms) m (inr h) = inr (In-display_ids ms m h)

active : (t : SessionTable) → List ℕ
active t = display_ids (values t.monitors)

live-active :
    (t : SessionTable) (k : ℕ) (m : Monitor)
    → lookup k t.monitors ≡ some m
    → In m.display_id (display_ids (values t.monitors))
live-active t k m e = In-display_ids _ m (lookup→In_values k m t.monitors e)

-- What the checks before the connector have established.
pub record IsAdmitted (t : SessionTable) (req : CreateMonitorRequest) (drv_caps : ℕ) (a : Admitted)
    : Type 0 where
  pub named : req.session_id ≢ 0
  pub new : lookup req.session_id t.monitors ≡ none
  pub room : length t.monitors % 2 ^ 32 < t.max_monitors
  pub unused : contains (display_ids (values t.monitors)) (identity_of req) ≡ false
  pub listed : validate_list req.modes req.mode_count req.bit_depth req.hdr drv_caps ≡ ok a.modes

pub admit-IsAdmitted :
    (t : SessionTable) (req : CreateMonitorRequest) (c : ℕ) (as' : List AdapterInfo) (p : ℕ)
    (a : Admitted)
    → admit t req c as' p ≡ ok a
    → IsAdmitted t req c a
unfolding admit
admit-IsAdmitted t req c as' p a e = ground arith

modes_listed :
    (t : SessionTable) (req : CreateMonitorRequest) (caps : ℕ) (a : Admitted)
    → IsAdmitted t req caps a
    → a.modes ≢ []
modes_listed t req caps a w e =
    let (n, some_mode) =
      length-validate_list req.bit_depth req.hdr caps req.modes req.mode_count a.modes w.listed in
    omega (arith, ap length e)

-- The monitor that is plugged.
monitor_of-IsMonitor :
    (t : SessionTable) (now : ℕ) (req : CreateMonitorRequest) (caps : ℕ) (a : Admitted) (c : ℕ)
    (res : Map ℕ)
    → IsAdmitted t req caps a
    → lookup (identity_of req) res ≡ some c
    → IsMonitor t.update_seq res req.session_id (monitor_of t now req a c)
unfolding monitor_of
monitor_of-IsMonitor t now req caps a c res w h = record {
  keyed = refl;
  in_force = record { not_empty = modes_listed t req caps a w; within = λ x i. i };
  outstanding = λ p e. cc;
  ordered = λ p e. cc;
  settled_below = omega arith;
  reserved = h;
}

display_id-monitor_of :
    (t : SessionTable) (now : ℕ) (req : CreateMonitorRequest) (a : Admitted) (c : ℕ)
    → (monitor_of t now req a c).display_id ≡ identity_of req
unfolding monitor_of
display_id-monitor_of t now req a c = refl

module _ (t : SessionTable) (now : ℕ) (req : CreateMonitorRequest) (caps : ℕ) (a : Admitted)
    (v : IsValid t) (w : IsAdmitted t req caps a) where
  -- Any connector table that keeps the reservations of the live monitors.
  others :
      (cs : ConnectorTable)
      → ((e c : ℕ)
          → In e (display_ids (values t.monitors))
          → lookup e t.connectors.reservations ≡ some c
          → lookup e cs.reservations ≡ some c)
      → (k : ℕ) (m : Monitor) → lookup k t.monitors ≡ some m
      → IsMonitor t.update_seq cs.reservations k m
  others cs keep k m e =
      IsMonitor-mono (omega arith) (keep m.display_id m.connector_index (live-active t k m e))
        (v.monitors k m e)

  plug-IsValid :
      (o : Option ℕ) (cs : ConnectorTable)
      → Table.IsValid cs
      → cs.max_connectors ≡ t.connectors.max_connectors
      → ((e c : ℕ)
          → In e (display_ids (values t.monitors))
          → lookup e t.connectors.reservations ≡ some c
          → lookup e cs.reservations ≡ some c)
      → ((c : ℕ) → o ≡ some c → lookup (identity_of req) cs.reservations ≡ some c)
      → IsValid (plug t now req a (o, cs)).1
  unfolding plug
  plug-IsValid none cs valid same keep given = record {
    connectors = valid;
    one_each = same ∙ v.one_each;
    capped = v.capped;
    sorted = v.sorted;
    bounded = v.bounded;
    monitors = others cs keep;
    identities = v.identities;
  }
  plug-IsValid (some c) cs valid same keep given = record {
    connectors = valid;
    one_each = same ∙ v.one_each;
    capped = v.capped;
    sorted = insert-Ascending 0 req.session_id plugged t.monitors (omega arith) v.sorted;
    bounded = omega (
      arith,
      length-insert_fresh req.session_id plugged t.monitors w.new,
      w.room,
      v.bounded,
      v.capped,
    );
    monitors = λ k m e.
        found_cases req.session_id k plugged m t.monitors e
          (λ p q.
            subst (λ x. IsMonitor t.update_seq cs.reservations x m) (sym p)
              (subst (IsMonitor t.update_seq cs.reservations req.session_id) (sym q)
                (monitor_of-IsMonitor t now req caps a c cs.reservations w (given c refl))))
          (λ p q. others cs keep k m q);
    identities = λ i j m n e f q.
        found_cases req.session_id i plugged m t.monitors e
          (λ p b.
            found_cases req.session_id j plugged n t.monitors f (λ r d. p ∙ sym r)
              (λ r d. absurd (fresh j n d (sym q ∙ ap (λ x. x.display_id) b))))
          (λ p b.
            found_cases req.session_id j plugged n t.monitors f
              (λ r d. absurd (fresh i m b (q ∙ ap (λ x. x.display_id) d)))
              (λ r d. v.identities i j m n b d q));
  }
    where
      plugged : Monitor
      plugged = monitor_of t now req a c

      fresh :
          (k : ℕ) (m : Monitor)
          → lookup k t.monitors ≡ some m
          → m.display_id ≢ (monitor_of t now req a c).display_id
      fresh k m e q = not-contains→In _ (identity_of req) w.unused (
          subst (λ x. In x (display_ids (values t.monitors)))
            (q ∙ display_id-monitor_of t now req a c) (live-active t k m e))

-- `create_trusted` keeps the invariant of the table, whether it creates a monitor or refuses.
pub create_trusted-IsValid :
    (t : SessionTable) (now : ℕ) (req : CreateMonitorRequest) (caps : ℕ) (as' : List AdapterInfo)
    (p : ℕ)
    → IsValid t
    → IsValid (create_trusted t now req caps as' p).1
unfolding create_trusted
create_trusted-IsValid t now req caps as' p v = elim (Result-cases (admit t req caps as' p)) [
  | inr (e, bad) ↦ rw (bad, create_trusted) v
  | inl (a, good) ↦
      let d = identity_of req in
      let live = display_ids (values t.monitors) in
      let r = acquire t.connectors d live in
      rw (good, create_trusted)
        (plug-IsValid t now req caps a v (admit-IsAdmitted t req caps as' p a good) r.0 r.1
          (acquire-IsValid t.connectors d live v.connectors)
          (max_connectors-acquire t.connectors d live)
          (λ e c. acquire-keeps_active t.connectors d live e c v.connectors)
          (λ c h. (acquire-given t.connectors d live c v.connectors h).1))
]

-- `create` keeps the invariant of the table, whether it creates a monitor or refuses: refusing a
-- host that asks for a reserved identity is among them.
pub create-IsValid :
    (t : SessionTable) (now : ℕ) (req : CreateMonitorRequest) (caps : ℕ) (as' : List AdapterInfo)
    (p : ℕ)
    → IsValid t
    → IsValid (create t now req caps as' p).1
unfolding create
create-IsValid t now req caps as' p v =
    elim (Bool-cases
      (leb ephemeral_display_id_base req.display_id || is_permanent_display_id req.display_id)) [
        | inl reserved ↦ rw reserved v
        | inr free ↦ rw free (create_trusted-IsValid t now req caps as' p v)
      ]
