-- ===== src/Dispatch/Kept.antt =====
-- What a request of crates/luminal-vgd-driver/src/dispatch.rs has to keep for the plugged displays.
use luminal_vgd.Prelude.{
  ℕ, Bool, ltb, Option, some, List, [], ◌∷◌, ◌++◌, ok, err, ◌≡◌, ◌≢◌, refl, ap, subst, inl, inr,
  some-injective, Bool-cases, Option-cases,
}
use luminal_vgd.Error.{Fallible}
use luminal_vgd.Proto.Messages.{UpdateModesRequest, UpdateModesReply}
use luminal_vgd.Session.State.{ModeUpdate}
use luminal_vgd.Dispatch.State.{
  DeviceState, HandleCtx, Effect, Outcome, Reply, bad_buffer, refuse_buffer, bad_buffer_result,
  finish, size_of, persist_effect,
}
use luminal_vgd.Dispatch.Updates.{answer_update, conclude_update}
use luminal_vgd.Dispatch.Cases.{if-arms}
use luminal_vgd.Dispatch.Mirror.{after, after_all, Mirrors, after_all-append}

-- A completed request leaves the displays a mirror of the table.
abbrev pub Kept : (ℕ → Bool) → Outcome → Type 0
Kept os o = o.result.status ≢ bad_buffer → Mirrors (after_all os o.result.effects) o.dev.table

abbrev pub IfAny : (ℕ → Bool) → Option Outcome → Type 0
IfAny os x = (o : Outcome) → x ≡ some o → Kept os o

pub IfAny-some : (os : ℕ → Bool) (o : Outcome) → Kept os o → IfAny os (some o)
IfAny-some os o i o' q = subst (Kept os) (some-injective q) i

pub finish-Kept :
    (os : ℕ → Bool) (dev : DeviceState) (handle : HandleCtx) (n : ℕ) (r : Reply) (es : List Effect)
    → Mirrors (after_all os es) dev.table
    → Kept os (finish dev handle n r es)
unfolding finish refuse_buffer bad_buffer_result
finish-Kept os dev handle n r es h =
    if-arms (Kept os) (ltb n (size_of r)) _ _ (λ _ served. absurd (served refl)) (λ _. h)

-- A snapshot for the registry plugs nothing.
pub after_all-snapshot :
    (os : ℕ → Bool) (dev : DeviceState) (es : List Effect) (k : ℕ)
    → after_all os (es ++ persist_effect dev ∷ []) k ≡ after_all os es k
unfolding after_all after persist_effect
after_all-snapshot os dev es k = ap (λ f. f k) (after_all-append os es (persist_effect dev ∷ []))

-- Answering an update plugs nothing.
pub after_all-answer :
    (os : ℕ → Bool) (req : UpdateModesRequest) (reply : UpdateModesReply) (a : Fallible ModeUpdate)
    (k : ℕ)
    → after_all os (answer_update req reply a).1 k ≡ os k
unfolding answer_update conclude_update after_all after
after_all-answer os req reply (err e) k = refl
after_all-answer os req reply (ok u) k = elim (Option-cases u.blocked) [
  | inr (idx, e) ↦ rw e refl
  | inl e ↦ elim (Bool-cases u.refused) [
    | inl f ↦ rw (e, f) refl
    | inr f ↦ elim (Option-cases u.queued) [
      | inl g ↦ rw (e, f, g) refl
      | inr (seq, g) ↦ rw (e, f, g) refl
    ]
  ]
]
