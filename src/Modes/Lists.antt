-- ===== src/Modes/Lists.antt =====
-- Which mode lists `Mode::validate_list` of crates/luminal-vgd-core/src/modes.rs accepts.
use mathlib.Core.List.{append_assoc, append-nil}
use luminal_vgd.Prelude.{
  ℕ, ◌≤◌, ◌≡◌, refl, sym, subst, ap, ◌∙◌, ◌↔◌, inl, inr, List, [], ◌∷◌, ◌++◌, arith, ok,
  Result-cases, Bool-cases, length, length-take, take, Distinct, contains, not-contains→In,
  not-In→contains, Distinct-snoc, Distinct-middle,
}
use luminal_vgd.Proto.{ModeSpec}
use luminal_vgd.Modes.{Mode, validate, validate_from, validate_list, mode_partial_eq}

module _ (depth hdr caps : ℕ) where
  -- Each entry of the first list validates to the entry of the second at the same place.
  abbrev pub Validated : List ModeSpec → List Mode → Type 0
  Validated [] [] = Unit {0}
  Validated (s ∷ ss) (m ∷ ms) =
      (validate s.width s.height s.refresh_millihz depth hdr caps ≡ ok m) × Validated ss ms
  Validated _ _ = ⊥

  pub length-Validated :
      (ss : List ModeSpec) (ms : List Mode) → Validated ss ms → length ms ≡ length ss
  length-Validated [] [] v = refl
  length-Validated [] (m ∷ ms) v = absurd v
  length-Validated (s ∷ ss) [] v = absurd v
  length-Validated (s ∷ ss) (m ∷ ms) v = omega (arith, length-Validated ss ms v.1)

  validate_from_sound :
      (out : List Mode) (ss : List ModeSpec) (r : List Mode)
      → Distinct out
      → validate_from out ss depth hdr caps ≡ ok r
      → (ms : List Mode) × (r ≡ out ++ ms) × Validated ss ms × Distinct r
  unfolding validate_from
  validate_from_sound out [] r d e =
      let same : out ≡ r = cc in ([], sym same ∙ sym (append-nil out), tt, subst Distinct same d)
  validate_from_sound out (s ∷ ss) r d e =
      elim (Result-cases (validate s.width s.height s.refresh_millihz depth hdr caps)) [
        | inr (f, bad) ↦ ground arith
        | inl (m, good) ↦ elim (Bool-cases (contains out m)) [
          | inl old ↦ ground arith
          | inr new ↦
              let (ms, p, v, q) =
                validate_from_sound (out ++ m ∷ []) ss r
                  (Distinct-snoc out m d (not-contains→In out m new)) (rw (good, new) at e) in
              (m ∷ ms, p ∙ append_assoc out (m ∷ []) ms, (good, v), q)
        ]
      ]

  validate_from_complete :
      (out : List Mode) (ss : List ModeSpec) (ms : List Mode)
      → Validated ss ms
      → Distinct (out ++ ms)
      → validate_from out ss depth hdr caps ≡ ok (out ++ ms)
  unfolding validate_from
  validate_from_complete out [] [] v d = rw append-nil refl
  validate_from_complete out [] (m ∷ ms) v d = absurd v
  validate_from_complete out (s ∷ ss) [] v d = absurd v
  validate_from_complete out (s ∷ ss) (m ∷ ms) v d =
      let regroup = append_assoc out (m ∷ []) ms in
      rw (v.0, not-In→contains out m (Distinct-middle out m ms d))
        (validate_from_complete (out ++ m ∷ []) ss ms v.1 (subst Distinct (sym regroup) d)
          ∙ ap ok regroup)

  -- What `validate_list` accepts: between one and four entries, as many as the request has, each of
  -- them valid, and no two of them the same mode.
  pub record IsModeList (specs : List ModeSpec) (count : ℕ) (modes : List Mode) : Type 0 where
    pub some_mode : 1 ≤ count
    pub at_most_four : count ≤ 4
    pub requested : count ≤ length specs
    pub validated : Validated (take count specs) modes
    pub distinct : Distinct modes

  -- `validate_list` answers `ok modes` exactly where `modes` are the validated entries of the
  -- request, one for each of its first `count` entries and in their order, with no duplicate, and
  -- `count` is between one and four and within the request.
  pub validate_list_iff :
      (specs : List ModeSpec) (count : ℕ) (modes : List Mode)
      → (validate_list specs count depth hdr caps ≡ ok modes) ↔ IsModeList specs count modes
  unfolding validate_list
  validate_list_iff specs count modes = (accepted, answered)
    where
      accepted : validate_list specs count depth hdr caps ≡ ok modes → IsModeList specs count modes
      accepted e =
          let (ms, p, v, d) = validate_from_sound [] (take count specs) modes tt (ground arith) in
          record {
            some_mode = ground arith;
            at_most_four = ground arith;
            requested = ground arith;
            validated = subst (Validated (take count specs)) (sym p) v;
            distinct = d;
          }

      answered : IsModeList specs count modes → validate_list specs count depth hdr caps ≡ ok modes
      answered l =
          ground (arith, validate_from_complete [] (take count specs) modes l.validated l.distinct)

  -- An accepted list has as many modes as the request asks for, so at least one.
  pub length-validate_list :
      (specs : List ModeSpec) (count : ℕ) (modes : List Mode)
      → validate_list specs count depth hdr caps ≡ ok modes
      → (length modes ≡ count) × (1 ≤ count)
  length-validate_list specs count modes e =
      let l = (validate_list_iff specs count modes).0 e in
      (
        length-Validated (take count specs) modes l.validated ∙ length-take count specs l.requested,
        l.some_mode,
      )
