-- ===== src/Permanent/Pool.antt =====
-- What `reconcile` and `member_request` of crates/luminal-vgd-core/src/permanent.rs do to the pool.
use luminal_vgd.Prelude.{
  ℕ, zero, suc, ◌+◌, ◌-◌, ◌^◌, ◌<◌, ◌≡◌, ◌≢◌, refl, inl, inr, true, false, Option, none, some, [],
  ◌∷◌, ltb, leb, ◌&&◌, ◌||◌, if◌then◌else◌, contains, nat_eq, arith, Bool-cases, Result-cases, ok,
  err, List, ◌≤◌, ◌==◌,
}
use luminal_vgd.Prelude.Bits.{bit_or-disjoint}
use luminal_vgd.Error.{CoreError}
use luminal_vgd.Proto.{max_permanent_displays, CreateMonitorRequest, PermanentPoolConfig}
use luminal_vgd.Modes
use luminal_vgd.Modes.{Mode, validate_list, validate_from}
use luminal_vgd.Identity.{permanent_display_id_base}
use luminal_vgd.Identity.Ranges.{permanent_display_id_lem}
use luminal_vgd.Permanent.{
  permanent_session_id, validate, member_request, Reconcile, counted, range, name_eq_iff,
  settings_changed, reconcile,
}

-- The first `n` members under `config`, each as the request that creates it.
abbrev pub members : PermanentPoolConfig → ℕ → ℕ → Option CreateMonitorRequest
members config n i = if ltb i n then some (member_request config i) else none

abbrev pub Pool : Type 0
Pool = ℕ → Option CreateMonitorRequest

abbrev pub with_slot : Pool → ℕ → Option CreateMonitorRequest → Pool
with_slot pool index slot i = if i == index then slot else pool i

-- Members are destroyed one after the other; one that is not there is an error, which is none.
abbrev pub destroy_in_turn : List ℕ → Pool → Option Pool
destroy_in_turn [] pool = some pool
destroy_in_turn (index ∷ rest) pool = elim (pool index) [
  | none ↦ none
  | some request ↦ destroy_in_turn rest (with_slot pool index none)
]

-- Members are created one after the other; one that is there already is refused, which is none.
abbrev pub create_in_turn : PermanentPoolConfig → List ℕ → Pool → Option Pool
create_in_turn desired [] pool = some pool
create_in_turn desired (index ∷ rest) pool = elim (pool index) [
  | some request ↦ none
  | none ↦ create_in_turn desired rest (with_slot pool index (some (member_request desired index)))
]

-- The destructions, then the creations.
abbrev pub carried_out : Reconcile → PermanentPoolConfig → Pool → Option Pool
carried_out r desired pool = elim (destroy_in_turn r.destroy pool) [
  | none ↦ none
  | some left ↦ create_in_turn desired r.create left
]

-- What a run over consecutive members leaves.
abbrev Changed : ℕ → ℕ → Pool → Pool → (ℕ → Option CreateMonitorRequest) → Type 0
Changed from n before after change =
    (i : ℕ) → after i ≡ (if leb from i && ltb i (from + n) then change i else before i)

destroy_in_turn-counted :
    (from n : ℕ) (pool : Pool)
    → ((i : ℕ)
        → from ≤ i
        → i < from + n
        → (request : CreateMonitorRequest) × (pool i ≡ some request))
    → (after : Pool) × (destroy_in_turn (counted from n) pool ≡ some after)
      × Changed from n pool after (λ _. none)
destroy_in_turn-counted from zero pool h = (pool, refl, λ i. ground arith)
destroy_in_turn-counted from (suc n) pool h =
    let (request, here) = h from (omega arith) (omega arith) in
    let next = with_slot pool from none in
    let (after, e, changed) =
      destroy_in_turn-counted (from + 1) n next
        (λ i p q. let (other, there) = h i (omega arith) (omega arith) in (other, ground arith)) in
    (after, rw here e, λ i. ground (arith, changed i))

create_in_turn-counted :
    (desired : PermanentPoolConfig) (from n : ℕ) (pool : Pool)
    → ((i : ℕ) → from ≤ i → i < from + n → pool i ≡ none)
    → (after : Pool) × (create_in_turn desired (counted from n) pool ≡ some after)
      × Changed from n pool after (λ i. some (member_request desired i))
create_in_turn-counted desired from zero pool h = (pool, refl, λ i. ground arith)
create_in_turn-counted desired from (suc n) pool h =
    let next = with_slot pool from (some (member_request desired from)) in
    let (after, e, changed) =
      create_in_turn-counted desired (from + 1) n next
        (λ i p q. let there = h i (omega arith) (omega arith) in ground arith) in
    (after, rw (h from (omega arith) (omega arith)) e, λ i. ground (arith, changed i))

same_requests :
    (current desired : PermanentPoolConfig) (i : ℕ)
    → settings_changed current desired ≡ false
    → member_request current i ≡ member_request desired i
unfolding member_request settings_changed
same_requests current desired i e =
    let w : current.width ≡ desired.width = ground arith in
    let h : current.height ≡ desired.height = ground arith in
    let z : current.refresh_millihz ≡ desired.refresh_millihz = ground arith in
    let b : current.bit_depth ≡ desired.bit_depth = ground arith in
    let d : current.hdr ≡ desired.hdr = ground arith in
    let x : current.physical_width_mm ≡ desired.physical_width_mm = ground arith in
    let y : current.physical_height_mm ≡ desired.physical_height_mm = ground arith in
    let k : current.name ≡ desired.name =
      ground (arith, (name_eq_iff current.name desired.name).0) in
    cc

carried_out-both :
    (r : Reconcile) (gone made : List ℕ) (desired : PermanentPoolConfig) (pool left after : Pool)
    → r ≡ record { destroy = gone; create = made }
    → destroy_in_turn gone pool ≡ some left
    → create_in_turn desired made left ≡ some after
    → carried_out r desired pool ≡ some after
carried_out-both r gone made desired pool left after p e f = rw p (rw (e, carried_out) f)

-- The pool of `n` members, with the members from `lo` to `hi` destroyed.
members-destroyed :
    (current : PermanentPoolConfig) (lo n : ℕ)
    → (after : Pool) × (destroy_in_turn (range lo n) (members current n) ≡ some after)
      × Changed lo (n - lo) (members current n) after (λ _. none)
members-destroyed current lo n =
    destroy_in_turn-counted lo (n - lo) (members current n)
      (λ i p q. (member_request current i, ground arith))

-- What `reconcile` asks for can be carried out in its order: every member to destroy is there, and
-- no member to create is there when its turn comes. It turns a pool of `n` members under the
-- current configuration into exactly the pool of the desired configuration: at every index the
-- desired member, with the desired settings, or none.
pub reconcile_reaches :
    (current desired : PermanentPoolConfig) (n : ℕ)
    → (after : Pool) × (carried_out (reconcile current n desired) desired (members current n)
        ≡ some after)
      × ((i : ℕ) → after i ≡ members desired desired.count i)
unfolding reconcile
reconcile_reaches current desired n = elim (Bool-cases (settings_changed current desired)) [
  | inl changed ↦
      let (left, e, gone) = members-destroyed current 0 n in
      let (after, f, made) =
        create_in_turn-counted desired 0 (desired.count - 0) left
          (λ i p q. ground (arith, gone i)) in
      (
        after,
        carried_out-both _ (range 0 n) (range 0 desired.count) desired _ left after
            (rw (changed, reconcile) refl) e f,
        λ i. ground (arith, made i, gone i),
      )
  | inr same ↦ elim (Bool-cases (leb n desired.count)) [
    | inl grows ↦
        let (after, f, made) =
          create_in_turn-counted desired n (desired.count - n) (members current n)
            (λ i p q. ground arith) in
        (
          after,
          carried_out-both _ [] (range n desired.count) desired _ (members current n) after
              (rw (same, grows, reconcile) refl) refl f,
          λ i. ground (arith, made i, same_requests current desired i same),
        )
    | inr shrinks ↦
        let (after, e, gone) = members-destroyed current desired.count n in
        (
          after,
          carried_out-both _ (range desired.count n) [] desired _ after after
              (rw (same, shrinks, reconcile) refl) e refl,
          λ i. ground (arith, gone i, same_requests current desired i same),
        )
  ]
]

-- The mode list of every member of a valid pool is accepted, whatever the place of the member.
pub validate-accepted :
    (config : PermanentPoolConfig) (caps max_monitors i : ℕ)
    → validate config caps max_monitors ≡ ok tt
    → i < config.count
    → (m : Mode) × (validate_list
          (member_request config i).modes
          (member_request config i).mode_count
          (member_request config i).bit_depth
          (member_request config i).hdr
          caps
        ≡ ok (m ∷ []))
unfolding validate member_request validate_list validate_from contains
validate-accepted config caps max_monitors i e h =
    elim (Result-cases (
      Modes.validate config.width config.height config.refresh_millihz config.bit_depth config.hdr
        caps)) [ inl (m, good) ↦ (m, rw good refl) | inr (x, bad) ↦ absurd (refused x bad) ]
  where
    refused :
        (x : CoreError)
        → Modes.validate config.width config.height config.refresh_millihz config.bit_depth
            config.hdr caps
          ≡ err x
        → ⊥
    refused x bad =
        elim (Bool-cases
          (ltb max_permanent_displays config.count || ltb max_monitors config.count)) [
            | inl big ↦ let clash = rw (big, validate) at e in cc
            | inr small ↦
                let some_members : ltb 0 config.count ≡ true = ground arith in
                let clash = rw (small, some_members, bad, validate) at e in cc
          ]

session_id_lem :
    (index : ℕ)
    → index < 2 ^ 32
    → permanent_session_id index ≡ permanent_display_id_base + 2 ^ 56 + index
unfolding permanent_session_id
session_id_lem index h = bit_or-disjoint 56 0x71 index (omega arith)

-- Two members of the pool have different sessions and different identities, and no member's session
-- is another's identity.
pub members_apart :
    (config : PermanentPoolConfig) (i j : ℕ)
    → i < 2 ^ 32
    → j < 2 ^ 32
    → i ≢ j
    → ((member_request config i).session_id ≢ (member_request config j).session_id)
      × ((member_request config i).display_id ≢ (member_request config j).display_id)
      × ((member_request config i).session_id ≢ (member_request config j).display_id)
unfolding member_request
members_apart config i j p q other = (
  λ e. other (omega (arith, session_id_lem i p, session_id_lem j q, e)),
  λ e. other (
      omega (
        arith,
        permanent_display_id_lem i (omega arith),
        permanent_display_id_lem j (omega arith),
        e,
      )),
  λ e. omega (arith, session_id_lem i p, permanent_display_id_lem j (omega arith), e),
)
