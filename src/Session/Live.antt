-- ===== src/Session/Live.antt =====
-- Which sessions are live after each operation of the session table in
-- crates/luminal-vgd-core/src/session.rs.
use luminal_vgd.Prelude.{
  ℕ, ◌%◌, ◌^◌, Bool, true, false, ◌||◌, Option, none, some, List, [], ◌∷◌, ◌==◌, leb, length,
  if◌then◌else◌, is_some, ok, err, ◌≡◌, refl, ap, sym, inl, inr, ◌∙◌, arith, Bool-cases,
  ok-injective, Option-cases, Result-cases,
}
use luminal_vgd.Prelude.Map.{lookup, values, insert, lookup-insert, lookup-remove}
use luminal_vgd.Error.{Fallible, CoreError}
use luminal_vgd.Proto.{CreateMonitorRequest, ModeSpec, as_raw}
use luminal_vgd.Adapter.{AdapterInfo}
use luminal_vgd.Modes.{Mode, TargetSelection, validate_list, select_targets}
use luminal_vgd.Modes
use luminal_vgd.Identity.{
  ConnectorTable, acquire, ephemeral_display_id_base, is_permanent_display_id,
}
use luminal_vgd.Session.State.{Monitor, SessionTable, ModeUpdate, target_base}
use luminal_vgd.Session.Create.{
  Admitted, admit, monitor_of, plug, create, create_trusted, display_ids, identity_of,
}
use luminal_vgd.Session.Removal.{destroy, take_out}
use luminal_vgd.Session.Lease.{ping}
use luminal_vgd.Session.Invariant.{lookup_stored}
use luminal_vgd.Session.Update.{
  block_for, modes_eq, decide, queue, expire_block, update_monitor, update_modes, hdr_raw,
}

unfoldable pub is_live : ℕ → SessionTable → Bool
is_live k t = is_some (lookup k t.monitors)

pub is_live-take_out :
    (t : SessionTable) (k j : ℕ) (m : Monitor)
    → is_live j (take_out t k m) ≡ (if k == j then false else is_live j t)
unfolding is_live take_out
is_live-take_out t k j m = ground (arith, lookup-remove k j t.monitors)

pub is_live-destroy :
    (t : SessionTable) (k j : ℕ) (m : Monitor)
    → (destroy t k).0 ≡ ok m
    → is_live j (destroy t k).1 ≡ (if k == j then false else is_live j t)
unfolding destroy
is_live-destroy t k j m e = elim (Option-cases (lookup k t.monitors)) [
  | inl gone ↦ let never = rw (gone, destroy) at e in cc
  | inr (n, here) ↦ rw (here, destroy) (is_live-take_out t k j n)
]

pub is_live-destroy_refused :
    (t : SessionTable) (k : ℕ) (x : CoreError) → (destroy t k).0 ≡ err x → (destroy t k).1 ≡ t
unfolding destroy
is_live-destroy_refused t k x e = elim (Option-cases (lookup k t.monitors)) [
  | inl gone ↦ rw (gone, destroy) refl
  | inr (n, here) ↦ let never = rw (here, destroy) at e in cc
]

pub is_live-ping : (t : SessionTable) (now k j : ℕ) → is_live j (ping t now k).1 ≡ is_live j t
unfolding is_live ping
is_live-ping t now k j = elim (Option-cases (lookup k t.monitors)) [
  | inl gone ↦ rw (gone, ping) refl
  | inr (n, here) ↦
      rw (here, ping)
        (ground (arith, here, lookup-insert k j (record n { last_ping_ms = now }) t.monitors))
]

is_live-plug :
    (t : SessionTable) (now : ℕ) (req : CreateMonitorRequest) (a : Admitted) (o : Option ℕ)
    (cs : ConnectorTable) (j : ℕ) (m : Monitor)
    → (plug t now req a (o, cs)).0 ≡ ok m
    → (m.session_id ≡ req.session_id)
      × (is_live j (plug t now req a (o, cs)).1
          ≡ (if req.session_id == j then true else is_live j t))
unfolding plug monitor_of is_live
is_live-plug t now req a none cs j m e = cc
is_live-plug t now req a (some c) cs j m e = (
  sym (ap session_of e),
  ground (arith, lookup-insert req.session_id j (monitor_of t now req a c) t.monitors),
)
  where
    session_of : Fallible Monitor → ℕ
    session_of (ok n) = n.session_id
    session_of (err x) = 0

plug-stored :
    (t : SessionTable) (now : ℕ) (req : CreateMonitorRequest) (a : Admitted) (o : Option ℕ)
    (cs : ConnectorTable) (m : Monitor)
    → (plug t now req a (o, cs)).0 ≡ ok m
    → lookup req.session_id (plug t now req a (o, cs)).1.monitors ≡ some m
unfolding plug
plug-stored t now req a none cs m e = cc
plug-stored t now req a (some c) cs m e =
    lookup_stored req.session_id (monitor_of t now req a c) t.monitors
    ∙ ap some (ok-injective _ refl e)

is_live-plug_refused :
    (t : SessionTable) (now : ℕ) (req : CreateMonitorRequest) (a : Admitted) (o : Option ℕ)
    (cs : ConnectorTable) (j : ℕ) (x : CoreError)
    → (plug t now req a (o, cs)).0 ≡ err x
    → is_live j (plug t now req a (o, cs)).1 ≡ is_live j t
unfolding plug is_live
is_live-plug_refused t now req a none cs j x e = refl
is_live-plug_refused t now req a (some c) cs j x e = cc

module _ (t : SessionTable) (now : ℕ) (req : CreateMonitorRequest) (caps : ℕ)
    (as' : List AdapterInfo) (p j : ℕ) where
  pub is_live-create_trusted :
      (m : Monitor)
      → (create_trusted t now req caps as' p).0 ≡ ok m
      → (m.session_id ≡ req.session_id)
        × (is_live j (create_trusted t now req caps as' p).1
            ≡ (if req.session_id == j then true else is_live j t))
  unfolding create_trusted
  is_live-create_trusted m e = elim (Result-cases (admit t req caps as' p)) [
    | inr (x, bad) ↦ let never = rw (bad, create_trusted) at e in cc
    | inl (a, good) ↦
        let r = acquire t.connectors (identity_of req) (display_ids (values t.monitors)) in
        rw (good, create_trusted)
          (is_live-plug t now req a r.0 r.1 j m (rw (good, create_trusted) at e))
  ]

  -- The monitor that is answered is the one that is stored.
  pub create_trusted-stored :
      (m : Monitor)
      → (create_trusted t now req caps as' p).0 ≡ ok m
      → lookup req.session_id (create_trusted t now req caps as' p).1.monitors ≡ some m
  unfolding create_trusted
  create_trusted-stored m e = elim (Result-cases (admit t req caps as' p)) [
    | inr (x, bad) ↦ let never = rw (bad, create_trusted) at e in cc
    | inl (a, good) ↦
        let r = acquire t.connectors (identity_of req) (display_ids (values t.monitors)) in
        rw (good, create_trusted)
          (plug-stored t now req a r.0 r.1 m (rw (good, create_trusted) at e))
  ]

  pub is_live-create_trusted_refused :
      (x : CoreError)
      → (create_trusted t now req caps as' p).0 ≡ err x
      → is_live j (create_trusted t now req caps as' p).1 ≡ is_live j t
  unfolding create_trusted
  is_live-create_trusted_refused x e = elim (Result-cases (admit t req caps as' p)) [
    | inr (y, bad) ↦ rw (bad, create_trusted) refl
    | inl (a, good) ↦
        let r = acquire t.connectors (identity_of req) (display_ids (values t.monitors)) in
        rw (good, create_trusted)
          (is_live-plug_refused t now req a r.0 r.1 j x (rw (good, create_trusted) at e))
  ]

  pub is_live-create :
      (m : Monitor)
      → (create t now req caps as' p).0 ≡ ok m
      → (m.session_id ≡ req.session_id)
        × (is_live j (create t now req caps as' p).1
            ≡ (if req.session_id == j then true else is_live j t))
  unfolding create
  is_live-create m e =
      elim (Bool-cases
        (leb ephemeral_display_id_base req.display_id || is_permanent_display_id req.display_id)) [
          | inl reserved ↦ let never = rw (reserved, create) at e in cc
          | inr free ↦ rw (free, create) (is_live-create_trusted m (rw (free, create) at e))
        ]

  pub create-stored :
      (m : Monitor)
      → (create t now req caps as' p).0 ≡ ok m
      → lookup req.session_id (create t now req caps as' p).1.monitors ≡ some m
  unfolding create
  create-stored m e =
      elim (Bool-cases
        (leb ephemeral_display_id_base req.display_id || is_permanent_display_id req.display_id)) [
          | inl reserved ↦ let never = rw (reserved, create) at e in cc
          | inr free ↦ rw (free, create) (create_trusted-stored m (rw (free, create) at e))
        ]

  pub is_live-create_refused :
      (x : CoreError)
      → (create t now req caps as' p).0 ≡ err x
      → is_live j (create t now req caps as' p).1 ≡ is_live j t
  unfolding create is_live
  is_live-create_refused x e =
      elim (Bool-cases
        (leb ephemeral_display_id_base req.display_id || is_permanent_display_id req.display_id)) [
          | inl reserved ↦ rw (reserved, create) refl
          | inr free ↦ rw (free, create) (is_live-create_trusted_refused x (rw (free, create) at e))
        ]

-- The sessions of the table, as a test.
abbrev pub SameLive : SessionTable → SessionTable → Type 0
SameLive t t' = (j : ℕ) → is_live j t' ≡ is_live j t

pub restored :
    (t : SessionTable) (k : ℕ) (m m' : Monitor) (seq : ℕ)
    → lookup k t.monitors ≡ some m
    → SameLive t (record t { update_seq = seq; monitors = insert k m' t.monitors })
unfolding is_live
restored t k m m' seq e j = ground (arith, lookup-insert k j m' t.monitors, e)

is_live-decide :
    (t : SessionTable) (k : ℕ) (m n : Monitor) (s : TargetSelection)
    → lookup k t.monitors ≡ some n
    → SameLive t (decide t k m s).1
unfolding decide queue
is_live-decide t k m n s e j = elim (Bool-cases (Modes.is_empty s)) [
  | inl nothing ↦ rw (nothing, decide) refl
  | inr something ↦ elim (Option-cases (block_for m s.targets)) [
    | inr (idx, b) ↦ rw (something, b, decide) refl
    | inl b ↦ elim (Bool-cases (modes_eq s.targets (target_base m))) [
      | inl same ↦ rw (something, b, same, decide) refl
      | inr new ↦ rw (something, b, new, decide) (restored t k n _ _ e j)
    ]
  ]
]

-- The table an update leaves, and `t` where it panics.
abbrev table_of : SessionTable → Option (Fallible ModeUpdate × SessionTable) → SessionTable
table_of t none = t
table_of t (some (x, t')) = t'

is_live-update_monitor :
    (t : SessionTable) (k : ℕ) (m n : Monitor) (specs : List ModeSpec) (caps : ℕ)
    (modes : List Mode) (r : Fallible ModeUpdate × SessionTable)
    → lookup k t.monitors ≡ some n
    → update_monitor t k m specs caps modes ≡ some r
    → SameLive t r.1
unfolding update_monitor
is_live-update_monitor t k m n specs caps [] r e q j = cc
is_live-update_monitor t k m n specs caps (pref ∷ rest) r e q j =
    elim (Result-cases (
      validate_list specs (length specs % 2 ^ 32) (as_raw pref.bit_depth) (hdr_raw pref.hdr)
        caps)) [
          | inr (x, f) ↦ ap (λ o. is_live j (table_of t o)) (sym (rw (f, update_monitor) at q))
          | inl (requested, f) ↦
              ap (λ o. is_live j (table_of t o)) (sym (rw (f, update_monitor) at q))
              ∙ is_live-decide t k m n (select_targets m.modes requested) e j
        ]

-- `update_modes` neither adds nor removes a session.
pub is_live-update_modes :
    (t : SessionTable) (k : ℕ) (specs : List ModeSpec) (caps token : ℕ)
    (r : Fallible ModeUpdate × SessionTable)
    → update_modes t k specs caps token ≡ some r
    → SameLive t r.1
unfolding update_modes
is_live-update_modes t k specs caps token r q j = elim (Option-cases (lookup k t.monitors)) [
  | inl e ↦ ap (λ o. is_live j (table_of t o)) (sym (rw (e, update_modes) at q))
  | inr (m, e) ↦
      let m' = expire_block token m in
      let t1 : SessionTable = record t { monitors = insert k m' t.monitors } in
      is_live-update_monitor t1 k m' m' specs caps m'.modes r (lookup_stored k m' t.monitors)
        (rw (e, update_modes) at q) j
      ∙ restored t k m m' t.update_seq e j
]
