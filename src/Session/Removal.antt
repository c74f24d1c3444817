-- ===== src/Session/Removal.antt =====
-- Teardown and the watchdog, in crates/luminal-vgd-core/src/session.rs.
use luminal_vgd.Prelude.{ℕ, Option, none, some, List, [], ◌∷◌, if◌then◌else◌, ok, err}
use luminal_vgd.Prelude.Map.{lookup, remove, keys, values}
use luminal_vgd.Error.{Fallible, no_such_session}
use luminal_vgd.Identity.{release}
use luminal_vgd.Session.State.{Monitor, SessionTable}
use luminal_vgd.Session.Lease.{has_expired}

-- The table without the monitor `m` of `session_id`; an ephemeral identity gives its connector
-- back.
unfoldable pub take_out : SessionTable → ℕ → Monitor → SessionTable
take_out t session_id m = record t {
  monitors = remove session_id t.monitors;
  connectors = if m.ephemeral_identity then release t.connectors m.display_id else t.connectors;
}

unfoldable pub destroy : SessionTable → ℕ → Fallible Monitor × SessionTable
destroy t session_id = elim (lookup session_id t.monitors) [
  | none ↦ (err no_such_session, t)
  | some m ↦ (ok m, take_out t session_id m)
]

unfoldable pub destroy_each : SessionTable → List ℕ → SessionTable
destroy_each t [] = t
destroy_each t (id ∷ ids) = destroy_each (destroy t id).1 ids

unfoldable pub destroy_all : SessionTable → SessionTable
destroy_all t = destroy_each t (keys t.monitors)

-- The sessions whose lease has run out.
unfoldable pub dead : ℕ → List Monitor → List ℕ
dead now_ms [] = []
dead now_ms (m ∷ ms) =
    let rest = dead now_ms ms in if has_expired now_ms m then m.session_id ∷ rest else rest

-- The removed monitors in order, and the table without them; a missing one panics.
unfoldable pub reap : SessionTable → List ℕ → Option (List Monitor × SessionTable)
reap t [] = some ([], t)
reap t (id ∷ ids) = elim (lookup id t.monitors) [
  | none ↦ none
  | some m ↦ elim (reap (take_out t id m) ids) [ none ↦ none | some r ↦ some (m ∷ r.0, r.1) ]
]

unfoldable pub tick : SessionTable → ℕ → Option (List Monitor × SessionTable)
tick t now_ms = reap t (dead now_ms (values t.monitors))
