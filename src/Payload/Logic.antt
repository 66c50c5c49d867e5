-- ===== src/Payload/Logic.antt =====
-- What the filter language says of a payload.
use vexdb.Prelude.{
  Bool, true, false, ◌&&◌, Option, none, some, List, [], ◌∷◌, ◌≡◌, ◌↔◌, ◌⊎◌, refl, arith, String,
  Bool-cases, Option-cases, inl, inr,
}
use vexdb.Platform.{Platform}
use vexdb.Payload.{
  Filter, Filters, eq, range, «in», contains, and, or, not, nil, cons, field, has_value, matches,
  all_match, any_match, is_none_or,
}

module _ ⦃p : Platform⦄ where
  open p use {Value, F64, le_d, as_f64_v, items_v, eq_v}

  -- The filter stands in the list.
  pub data Stands (f : Filter) : Filters → Type 0 where
    first : {fs : Filters} → Stands f (cons f fs)
    later : {g : Filter} {fs : Filters} → Stands f fs → Stands f (cons g fs)

  -- The value is in the list, by the equality of JSON values.
  pub data Has (v : Value) : List Value → Type 0 where
    this : {w : Value} {ws : List Value} → eq_v w v ≡ true → Has v (w ∷ ws)
    next : {w : Value} {ws : List Value} → Has v ws → Has v (w ∷ ws)

  behind : {v w : Value} {ws : List Value} → eq_v w v ≡ false → Has v (w ∷ ws) → Has v ws
  behind h (this e) = absurd (ground (arith, h, e))
  behind h (next e) = e

  other :
      {g : Filter} {fs : Filters} (payload : Option Value)
      → matches g payload ≡ false
      → (f : Filter) → Stands f (cons g fs)
      → matches f payload ≡ true
      → Stands f fs
  other payload h f first m = absurd (ground (arith, h, m))
  other payload h f (later s) m = s

  each :
      {g : Filter} {fs : Filters} (payload : Option Value)
      → ((f : Filter) → Stands f fs → matches f payload ≡ true)
      → matches g payload ≡ true
      → (f : Filter) → Stands f (cons g fs)
      → matches f payload ≡ true
  each payload all h f first = h
  each payload all h f (later s) = all f s

  has_value-Has : (ws : List Value) (v : Value) → (has_value ws v ≡ true) ↔ Has v ws
  has_value-Has [] v = (λ h. cc, λ h. elim h [ ])
  has_value-Has (w ∷ ws) v =
      let (only, all) = has_value-Has ws v in
      elim (Bool-cases (eq_v w v)) [
        | inl h ↦ (λ _. this h, λ _. rw h refl)
        | inr h ↦ (λ e. next (only (rw h at e)), λ e. rw h (all (behind h e)))
      ]

  all_match-Stands :
      (fs : Filters) (payload : Option Value)
      → (all_match fs payload ≡ true) ↔ ((f : Filter) → Stands f fs → matches f payload ≡ true)
  unfolding matches
  all_match-Stands nil payload = (λ h f s. elim s [ ], λ h. refl)
  all_match-Stands (cons g fs) payload =
      let (only, all) = all_match-Stands fs payload in
      elim (Bool-cases (matches g payload)) [
        | inl h ↦
            (λ e f s. each payload (only (rw h at e)) h f s, λ e. rw h (all (λ f s. e f (later s))))
        | inr h ↦ (
          λ e. let no : false ≡ true = rw h at e in cc,
          λ e. let no : false ≡ true = rw h at (e g first) in cc,
        )
      ]

  any_match-Stands :
      (fs : Filters) (payload : Option Value)
      → (any_match fs payload ≡ true) ↔ ((f : Filter) × Stands f fs × (matches f payload ≡ true))
  unfolding matches
  any_match-Stands nil payload = (λ h. cc, λ (f, s, _). elim s [ ])
  any_match-Stands (cons g fs) payload =
      let (only, all) = any_match-Stands fs payload in
      elim (Bool-cases (matches g payload)) [
        | inl h ↦ (λ e. (g, first, h), λ e. rw h refl)
        | inr h ↦ (
          λ e. let (f, s, m) = only (rw h at e) in (f, later s, m),
          λ (f, s, m). rw h (all (f, other payload h f s m, m)),
        )
      ]

  -- What each filter says of the payload.
  pub record IsMeant (payload : Option Value) : Type 0 where
    pub equal :
        (key : String) (value : Value)
        → (matches (eq key value) payload ≡ true)
          ↔ ((v : Value) × (field payload key ≡ some v) × (eq_v v value ≡ true))
    pub within :
        (key : String) (gte lte : Option F64)
        → (matches (range key gte lte) payload ≡ true) ↔ (
            (v : Value) × (x : F64) × (field payload key ≡ some v)
            × (as_f64_v v ≡ some x)
            × ((g : F64) → gte ≡ some g → le_d g x ≡ true)
            × ((l : F64) → lte ≡ some l → le_d x l ≡ true))
    pub among :
        (key : String) (values : List Value)
        → (matches («in» key values) payload ≡ true)
          ↔ ((v : Value) × (field payload key ≡ some v) × Has v values)
    pub holding :
        (key : String) (value : Value)
        → (matches (contains key value) payload ≡ true) ↔ (
            (v : Value) × (field payload key ≡ some v)
            × (((items : List Value) × (items_v v ≡ some items) × Has value items)
                ⊎ ((items_v v ≡ none) × (eq_v v value ≡ true))))
    pub every :
        (fs : Filters)
        → (matches (and fs) payload ≡ true)
          ↔ ((f : Filter) → Stands f fs → matches f payload ≡ true)
    pub any :
        (fs : Filters)
        → (matches (or fs) payload ≡ true)
          ↔ ((f : Filter) × Stands f fs × (matches f payload ≡ true))
    pub negated : (f : Filter) → (matches (not f) payload ≡ true) ↔ (¬ (matches f payload ≡ true))

  module _ (payload : Option Value) (key : String) where
    equal_iff :
        (value : Value)
        → (matches (eq key value) payload ≡ true)
          ↔ ((v : Value) × (field payload key ≡ some v) × (eq_v v value ≡ true))
    unfolding matches
    equal_iff value = elim (Option-cases (field payload key)) [
      | inl absent ↦ (λ e. ground (arith, e, absent), λ (v, at, _). ground (arith, absent, at))
      | inr (v, at) ↦
          let run : matches (eq key value) payload ≡ eq_v v value = ground (arith, at) in
          (λ e. (v, at, rw run at e), λ (w, at', e). ground (arith, run, at, at', e))
    ]

    bound_iff :
        (bound : Option F64) (test : F64 → Bool)
        → (is_none_or bound test ≡ true) ↔ ((b : F64) → bound ≡ some b → test b ≡ true)
    bound_iff none test = (λ _ b e. cc, λ _. refl)
    bound_iff (some b) test = (λ h c e. let same : b ≡ c = cc in rw same at h, λ h. h b refl)

    both : (a b : Bool) → ((a && b) ≡ true) ↔ ((a ≡ true) × (b ≡ true))
    both a b = ground arith

    within_iff :
        (gte lte : Option F64)
        → (matches (range key gte lte) payload ≡ true) ↔ (
            (v : Value) × (x : F64) × (field payload key ≡ some v)
            × (as_f64_v v ≡ some x)
            × ((g : F64) → gte ≡ some g → le_d g x ≡ true)
            × ((l : F64) → lte ≡ some l → le_d x l ≡ true))
    unfolding matches
    within_iff gte lte = elim (Option-cases (field payload key)) [
      | inl absent ↦
          (λ e. ground (arith, e, absent), λ (v, x, at, _, _, _). ground (arith, absent, at))
      | inr (v, at) ↦ elim (Option-cases (as_f64_v v)) [
        | inl word ↦ (
          λ e. ground (arith, e, at, word),
          λ (w, x, at', number, _, _). ground (arith, at, at', word, number),
        )
        | inr (x, number) ↦
            let low = is_none_or gte (λ g. le_d g x) in
            let high = is_none_or lte (λ l. le_d x l) in
            let run : matches (range key gte lte) payload ≡ (low && high) =
              ground (arith, at, number) in
            (
              λ e.
                  let (l, h) = (both low high).0 (rw run at e) in
                  (v, x, at, number, (bound_iff gte _).0 l, (bound_iff lte _).0 h),
              λ (w, y, at', number', l, h).
                  let same : w ≡ v = ground (arith, at, at') in
                  let alike : y ≡ x = ground (arith, number, number', same) in
                  rw run (
                    (both low high).1
                      ((bound_iff gte _).1 (rw alike at l), (bound_iff lte _).1 (rw alike at h))),
            )
      ]
    ]

    among_iff :
        (values : List Value)
        → (matches («in» key values) payload ≡ true)
          ↔ ((v : Value) × (field payload key ≡ some v) × Has v values)
    unfolding matches
    among_iff values = elim (Option-cases (field payload key)) [
      | inl absent ↦ (λ e. ground (arith, e, absent), λ (v, at, _). ground (arith, absent, at))
      | inr (v, at) ↦
          let run : matches («in» key values) payload ≡ has_value values v = ground (arith, at) in
          (
            λ e. (v, at, (has_value-Has values v).0 (rw run at e)),
            λ (w, at', has).
                let same : w ≡ v = ground (arith, at, at') in
                rw run ((has_value-Has values v).1 (rw same at has)),
          )
    ]

    -- What an item or a field that is no array may be equal to.
    abbrev Holds : Value → Value → Type 0
    Holds v value =
        ((items : List Value) × (items_v v ≡ some items) × Has value items)
        ⊎ ((items_v v ≡ none) × (eq_v v value ≡ true))

    as_scalar : (v value : Value) → items_v v ≡ none → Holds v value → eq_v v value ≡ true
    as_scalar v value scalar (inl (items, listed, has)) = absurd (ground (arith, scalar, listed))
    as_scalar v value scalar (inr (_, e)) = e

    as_list :
        (v value : Value) (items : List Value)
        → items_v v ≡ some items
        → Holds v value
        → Has value items
    as_list v value items listed (inl (items', listed', has)) =
        let same : items' ≡ items = ground (arith, listed, listed') in rw same at has
    as_list v value items listed (inr (scalar, _)) = absurd (ground (arith, scalar, listed))

    holding_iff :
        (value : Value)
        → (matches (contains key value) payload ≡ true) ↔ (
            (v : Value) × (field payload key ≡ some v)
            × (((items : List Value) × (items_v v ≡ some items) × Has value items)
                ⊎ ((items_v v ≡ none) × (eq_v v value ≡ true))))
    unfolding matches
    holding_iff value = elim (Option-cases (field payload key)) [
      | inl absent ↦ (λ e. ground (arith, e, absent), λ (v, at, _). ground (arith, absent, at))
      | inr (v, at) ↦ elim (Option-cases (items_v v)) [
        | inl scalar ↦
            let run : matches (contains key value) payload ≡ eq_v v value =
              ground (arith, at, scalar) in
            (
              λ e. (v, at, inr (scalar, rw run at e)),
              λ (w, at', held).
                  let same : w ≡ v = ground (arith, at, at') in
                  rw run (as_scalar v value scalar (rw same at held)),
            )
        | inr (items, listed) ↦
            let run : matches (contains key value) payload ≡ has_value items value =
              ground (arith, at, listed) in
            (
              λ e. (v, at, inl (items, listed, (has_value-Has items value).0 (rw run at e))),
              λ (w, at', held).
                  let same : w ≡ v = ground (arith, at, at') in
                  rw run (
                    (has_value-Has items value).1 (as_list v value items listed (rw same at held))),
            )
      ]
    ]

  -- What the filter language says of a payload. An equality, a list of values and a `contains` ask for the
  -- field and compare with it, or with an item of it; a range asks for a number between the bounds that it
  -- has; a conjunction matches when each of its filters does, a disjunction when one of them does, and
  -- a negation when its filter does not.
  pub matches-IsMeant : (payload : Option Value) → IsMeant payload
  unfolding matches
  matches-IsMeant payload = record {
    equal = equal_iff payload;
    within = within_iff payload;
    among = among_iff payload;
    holding = holding_iff payload;
    every = λ fs. all_match-Stands fs payload;
    any = λ fs. any_match-Stands fs payload;
    negated = λ f. ground arith;
  }
