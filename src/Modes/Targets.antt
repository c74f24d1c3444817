-- ===== src/Modes/Targets.antt =====
-- What `Mode::select_targets` of crates/luminal-vgd-core/src/modes.rs publishes: the safety
-- property that its documentation states, and the counts that replies rest on.
use mathlib.Core.List.{append_assoc, append-nil}
use luminal_vgd.Prelude.{
  ℕ, ◌+◌, ◌≡◌, refl, sym, subst, ap, ◌∙◌, inl, inr, Option, none, some, List, [], ◌∷◌, ◌++◌, arith,
  Bool-cases, length, length-append, In, Distinct, contains, contains→In, In→contains,
  not-contains→In, not-In→contains, Distinct-snoc, Distinct-middle, In-append_cases, In-append_left,
  In-append_right, All, All-of_In,
}
use luminal_vgd.Modes.{
  Mode, TargetSelection, select_step, select_from, select_targets, nothing_selected,
  mode_partial_eq, get_or_insert,
}

-- Deleting some entries and keeping the others in order.
pub data Thinned : List Mode → List Mode → Type 0 where
  done : Thinned [] []
  keep : {m n : Mode} {xs ys : List Mode} → m ≡ n → Thinned xs ys → Thinned (m ∷ xs) (n ∷ ys)
  skip : {n : Mode} {xs ys : List Mode} → Thinned xs ys → Thinned xs (n ∷ ys)

Thinned-keep_last :
    (m : Mode) {xs ys : List Mode} → Thinned xs ys → Thinned (xs ++ m ∷ []) (ys ++ m ∷ [])
Thinned-keep_last m done = keep refl done
Thinned-keep_last m (keep e t) = keep e (Thinned-keep_last m t)
Thinned-keep_last m (skip t) = skip (Thinned-keep_last m t)

Thinned-skip_last : (m : Mode) {xs ys : List Mode} → Thinned xs ys → Thinned xs (ys ++ m ∷ [])
Thinned-skip_last m done = skip done
Thinned-skip_last m (keep e t) = keep e (Thinned-skip_last m t)
Thinned-skip_last m (skip t) = skip (Thinned-skip_last m t)

module _ (supported : List Mode) where
  -- The entry at index `i` is not supported, and all those before it are.
  pub record IsFirstOutside (req : List Mode) (i : ℕ) : Type 0 where
    pub before : List Mode
    pub bad : Mode
    pub rest : List Mode
    pub split : req ≡ before ++ bad ∷ rest
    pub place : length before ≡ i
    pub outside : ¬ In bad supported
    pub inside : (m : Mode) → In m before → In m supported

  abbrev pub FirstOutside : List Mode → Option ℕ → Type 0
  FirstOutside req none = (m : Mode) → In m req → In m supported
  FirstOutside req (some i) = IsFirstOutside req i

  -- What a selection says of the request.
  pub record Selects (req : List Mode) (s : TargetSelection) : Type 0 where
    pub supported_only : (m : Mode) → In m s.targets → In m supported
    pub complete : (m : Mode) → In m req → In m supported → In m s.targets
    pub distinct : Distinct s.targets
    pub in_order : Thinned s.targets req
    pub counted : s.accepted + s.rejected ≡ length req
    pub first : FirstOutside req s.first_rejected

  IsFirstOutside-extend :
      (req : List Mode) (m : Mode) (i : ℕ) → IsFirstOutside req i → IsFirstOutside (req ++ m ∷ []) i
  IsFirstOutside-extend req m i f = record {
    before = f.before;
    bad = f.bad;
    rest = f.rest ++ m ∷ [];
    split = ap (λ l. l ++ m ∷ []) f.split ∙ append_assoc f.before (f.bad ∷ f.rest) (m ∷ []);
    place = f.place;
    outside = f.outside;
    inside = f.inside;
  }

  FirstOutside-keep :
      (req : List Mode) (m : Mode) (o : Option ℕ)
      → In m supported
      → FirstOutside req o
      → FirstOutside (req ++ m ∷ []) o
  FirstOutside-keep req m none h f = λ n k. elim (In-append_cases n req (m ∷ []) k) [
    | inl l ↦ f n l
    | inr (inl e) ↦ subst (λ x. In x supported) (sym e) h
    | inr (inr z) ↦ absurd z
  ]
  FirstOutside-keep req m (some i) h f = IsFirstOutside-extend req m i f

  FirstOutside-reject :
      (req : List Mode) (m : Mode) (o : Option ℕ)
      → ¬ In m supported
      → FirstOutside req o
      → FirstOutside (req ++ m ∷ []) (get_or_insert o (length req))
  FirstOutside-reject req m none h f = record {
    before = req;
    bad = m;
    rest = [];
    split = refl;
    place = refl;
    outside = h;
    inside = f;
  }
  FirstOutside-reject req m (some i) h f = IsFirstOutside-extend req m i f

  -- One round, in its three cases.
  module _ (req : List Mode) (m : Mode) (s : TargetSelection) (v : Selects req s) where
    reject-Selects :
        ¬ In m supported
        → Selects (req ++ m ∷ []) (record s {
          rejected = s.rejected + 1;
          first_rejected = get_or_insert s.first_rejected (length req);
        })
    reject-Selects out = record {
      supported_only = v.supported_only;
      complete = λ n i k. elim (In-append_cases n req (m ∷ []) i) [
        | inl l ↦ v.complete n l k
        | inr (inl e) ↦ absurd (out (subst (λ x. In x supported) e k))
        | inr (inr z) ↦ absurd z
      ];
      distinct = v.distinct;
      in_order = Thinned-skip_last m v.in_order;
      counted = omega (arith, v.counted, length-append req (m ∷ []));
      first = FirstOutside-reject req m s.first_rejected out v.first;
    }

    repeat-Selects :
        In m supported
        → In m s.targets
        → Selects (req ++ m ∷ []) (record s { accepted = s.accepted + 1 })
    repeat-Selects ins old = record {
      supported_only = v.supported_only;
      complete = λ n i k. elim (In-append_cases n req (m ∷ []) i) [
        | inl l ↦ v.complete n l k
        | inr (inl e) ↦ subst (λ x. In x s.targets) (sym e) old
        | inr (inr z) ↦ absurd z
      ];
      distinct = v.distinct;
      in_order = Thinned-skip_last m v.in_order;
      counted = omega (arith, v.counted, length-append req (m ∷ []));
      first = FirstOutside-keep req m s.first_rejected ins v.first;
    }

    publish-Selects :
        In m supported
        → ¬ In m s.targets
        → Selects
            (req ++ m ∷ [])
            (record s { targets = s.targets ++ m ∷ []; accepted = s.accepted + 1 })
    publish-Selects ins new = record {
      supported_only = λ n i. elim (In-append_cases n s.targets (m ∷ []) i) [
        | inl l ↦ v.supported_only n l
        | inr (inl e) ↦ subst (λ x. In x supported) (sym e) ins
        | inr (inr z) ↦ absurd z
      ];
      complete = λ n i k. elim (In-append_cases n req (m ∷ []) i) [
        | inl l ↦ In-append_left n s.targets (m ∷ []) (v.complete n l k)
        | inr l ↦ In-append_right n s.targets (m ∷ []) l
      ];
      distinct = Distinct-snoc s.targets m v.distinct new;
      in_order = Thinned-keep_last m v.in_order;
      counted = omega (arith, v.counted, length-append req (m ∷ []));
      first = FirstOutside-keep req m s.first_rejected ins v.first;
    }

    select_step-Selects : Selects (req ++ m ∷ []) (select_step supported (length req) m s)
    unfolding select_step
    select_step-Selects = elim (Bool-cases (contains supported m)) [
      | inr out ↦ rw out (reject-Selects (not-contains→In supported m out))
      | inl ins ↦
          let h = contains→In supported m ins in
          elim (Bool-cases (contains s.targets m)) [
            | inl old ↦ rw (ins, old) (repeat-Selects h (contains→In s.targets m old))
            | inr new ↦ rw (ins, new) (publish-Selects h (not-contains→In s.targets m new))
          ]
    ]

  select_from-Selects :
      (seen rest : List Mode) (s : TargetSelection)
      → Selects seen s
      → Selects (seen ++ rest) (select_from supported (length seen) rest s)
  unfolding select_from
  select_from-Selects seen [] s v = rw append-nil v
  select_from-Selects seen (m ∷ rest) s v =
      let next = select_step supported (length seen) m s in
      let later : Selects ((seen ++ m ∷ []) ++ rest)
          (select_from supported (length (seen ++ m ∷ [])) rest next) =
        select_from-Selects (seen ++ m ∷ []) rest next (select_step-Selects seen m s v) in
      rw (append_assoc seen (m ∷ []) rest, length-append seen (m ∷ [])) at later

  -- Every target that `select_targets` publishes is in the monitor's superset; the targets are the
  -- requested modes that the superset has, in the order of the request and each once; every entry
  -- of the request is counted as accepted or as rejected, and `first_rejected` is the place of the
  -- first one outside the superset, or none where there is none.
  pub select_targets-Selects :
      (requested : List Mode) → Selects requested (select_targets supported requested)
  unfolding select_targets
  select_targets-Selects requested = select_from-Selects [] requested nothing_selected (record {
    supported_only = λ m h. absurd h;
    complete = λ m h k. absurd h;
    distinct = tt;
    in_order = done;
    counted = refl;
    first = λ m h. absurd h;
  })

  select_step-publish :
      (i : ℕ) (m : Mode) (s : TargetSelection)
      → In m supported
      → ¬ In m s.targets
      → select_step supported i m s
        ≡ record s { targets = s.targets ++ m ∷ []; accepted = s.accepted + 1 }
  unfolding select_step
  select_step-publish i m s h n = rw (In→contains supported m h, not-In→contains s.targets m n)

  select_from-publishes :
      (i : ℕ) (rest : List Mode) (s : TargetSelection)
      → All (λ m. In m supported) rest
      → Distinct (s.targets ++ rest)
      → (select_from supported i rest s).targets ≡ s.targets ++ rest
  unfolding select_from
  select_from-publishes i [] s h d = sym (append-nil s.targets)
  select_from-publishes i (m ∷ rest) s h d =
      let regroup = append_assoc s.targets (m ∷ []) rest in
      let step = select_step-publish i m s h.0 (Distinct-middle s.targets m rest d) in
      ap (λ t. (select_from supported (i + 1) rest t).targets) step
      ∙ select_from-publishes (i + 1) rest
          (record s { targets = s.targets ++ m ∷ []; accepted = s.accepted + 1 }) h.1
          (subst Distinct (sym regroup) d)
      ∙ regroup

  -- Sending again the targets that a selection has published selects the same targets.
  pub select_targets_idempotent :
      (requested : List Mode)
      → let once = (select_targets supported requested).targets in
        (select_targets supported once).targets ≡ once
  unfolding select_targets
  select_targets_idempotent requested =
      let v = select_targets-Selects requested in
      publishes (select_targets supported requested).targets v.supported_only v.distinct
    where
      publishes :
          (ms : List Mode)
          → ((m : Mode) → In m ms → In m supported)
          → Distinct ms
          → (select_targets supported ms).targets ≡ ms
      publishes ms h d = select_from-publishes 0 ms nothing_selected (All-of_In _ ms h) d
