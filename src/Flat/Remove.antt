-- ===== src/Flat/Remove.antt =====
-- `FlatIndex::remove` on a well-formed index.
use vexdb.Prelude.{
  ℕ, ◌+◌, ◌<◌, true, false, Option, none, some, List, ◌≡◌, ◌≢◌, refl, arith, length, get_elem?,
  Bool-cases, Option-cases, inl, inr, ◌==◌, ltb, if◌then◌else◌,
}
use vexdb.Platform.{Platform}
use vexdb.Error.{VectorId, ok}
use vexdb.Vector
use vexdb.Collections.Dict
use vexdb.Collections.Dict.{nat_eq}
use vexdb.Collections.Vec.{swap_remove_lem, lt_of_get_elem?, get_elem?_of_lt}
use vexdb.Flat.{FlatIndex, Entry, remove, contains}
use vexdb.Flat.Invariant.{IsValid}

module _ ⦃p : Platform⦄ where
  -- The entry that the index holds for an id.
  abbrev pub stored : FlatIndex → VectorId → Option Entry
  stored idx id = elim (Dict.get idx.id_to_pos id) [
    | none ↦ none
    | some pos ↦ get_elem? idx.entries pos
  ]

  -- `idx'` is `idx` without the entry of `id`.
  pub record IsWithout (idx : FlatIndex) (id : VectorId) (idx' : FlatIndex) : Type 0 where
    pub valid : IsValid idx'
    pub gone : stored idx' id ≡ none
    pub rest : (j : VectorId) → j ≢ id → stored idx' j ≡ stored idx j
    pub same_dim : idx'.dim ≡ idx.dim
    pub same_metric : idx'.metric ≡ idx.metric

  -- An entry at `pos` has the id `id`; the list `ys` is what `swap_remove` leaves.
  module _ (idx : FlatIndex) (w : IsValid idx) (id : VectorId) (pos : ℕ)
      (at : Dict.get idx.id_to_pos id ≡ some pos) (ys : List Entry)
      (size : length ys + 1 ≡ length idx.entries)
      (elems : (j : ℕ)
        → j < length ys
        → get_elem? ys j
          ≡ (if pos == j then get_elem? idx.entries (length ys) else get_elem? idx.entries j)) where
    -- Two entries at one position are the same.
    other_position : (q : ℕ) (e : Entry) → get_elem? idx.entries q ≡ some e → e.id ≢ id → q ≢ pos
    other_position q e h ne =
        λ same. let (f, at_f, id_f) = w.found id pos at in ground (arith, at_f, id_f)

    pos_lt : pos < length idx.entries
    pos_lt = let (e, at_e, same) = w.found id pos at in lt_of_get_elem? idx.entries pos at_e

    module _ (moved : Entry) (last : get_elem? idx.entries (length ys) ≡ some moved)
        (inside : pos < length ys) where
      abbrev swapped : FlatIndex
      swapped = record idx {
        entries = ys;
        id_to_pos = Dict.insert (Dict.remove idx.id_to_pos id) moved.id pos;
      }

      swapped_get :
          (j : VectorId)
          → Dict.get swapped.id_to_pos j ≡ (
              if moved.id == j
              then some pos
              else if id == j
              then none
              else Dict.get idx.id_to_pos j)
      swapped_get j = ground (
        arith,
        Dict.get-insert (Dict.remove idx.id_to_pos id) moved.id pos j,
        Dict.get-remove idx.id_to_pos id j,
      )

      moved_other : moved.id ≢ id
      moved_other e = ground (arith, w.mapped (length ys) moved last)

      swapped_found :
          (j : VectorId) (q : ℕ)
          → Dict.get swapped.id_to_pos j ≡ some q
          → (e : Entry) × (get_elem? ys q ≡ some e) × (e.id ≡ j)
      swapped_found j q h = elim (Bool-cases (moved.id == j)) [
        | inl e ↦ (moved, ground (arith, swapped_get j, elems pos inside), ground arith)
        | inr ne ↦
            let was : Dict.get idx.id_to_pos j ≡ some q = ground (arith, swapped_get j) in
            let other : j ≢ id = ground (arith, swapped_get j) in
            let (e, at_e, same) = w.found j q was in
            let away : q ≢ pos = other_position q e at_e (ground arith) in
            let below : q ≢ length ys = ground arith in
            (e, ground (arith, elems q, lt_of_get_elem? idx.entries q at_e), same)
      ]

      swapped_mapped :
          (q : ℕ) (e : Entry) → get_elem? ys q ≡ some e → Dict.get swapped.id_to_pos e.id ≡ some q
      swapped_mapped q e h =
          let short = lt_of_get_elem? ys q h in
          ground (
            arith,
            elems q short,
            swapped_get e.id,
            w.mapped q e,
            w.mapped (length ys) moved last,
            at,
            w.mapped (length ys) e,
          )

      swapped_sized : (q : ℕ) (e : Entry) → get_elem? ys q ≡ some e → Vector.dim e.vector ≡ idx.dim
      swapped_sized q e h =
          let short = lt_of_get_elem? ys q h in
          ground (arith, elems q short, w.sized q e, w.sized (length ys) e)

      swapped-IsValid : IsValid swapped
      swapped-IsValid = record {
        found = swapped_found;
        mapped = swapped_mapped;
        sized = swapped_sized;
      }

      swapped_rest : (j : VectorId) → j ≢ id → stored swapped j ≡ stored idx j
      swapped_rest j ne = elim (Option-cases (Dict.get idx.id_to_pos j)) [
        | inl absent ↦ ground (arith, absent, swapped_get j, w.mapped (length ys) moved last)
        | inr (q, was) ↦
            let (e, at_e, same) = w.found j q was in
            let away : q ≢ pos = other_position q e at_e (ground arith) in
            ground (
              arith,
              was,
              at_e,
              same,
              swapped_get j,
              w.mapped (length ys) moved last,
              elems q,
              elems pos inside,
              lt_of_get_elem? idx.entries q at_e,
            )
      ]

      pub swapped-IsWithout : IsWithout idx id swapped
      swapped-IsWithout = record {
        valid = swapped-IsValid;
        gone = ground (arith, swapped_get id, moved_other);
        rest = swapped_rest;
        same_dim = refl;
        same_metric = refl;
      }

    module _ (outside : ¬ (pos < length ys)) where
      abbrev cut : FlatIndex
      cut = record idx { entries = ys; id_to_pos = Dict.remove idx.id_to_pos id }

      cut_get :
          (j : VectorId)
          → Dict.get cut.id_to_pos j ≡ (if id == j then none else Dict.get idx.id_to_pos j)
      cut_get j = Dict.get-remove idx.id_to_pos id j

      cut_found :
          (j : VectorId) (q : ℕ)
          → Dict.get cut.id_to_pos j ≡ some q
          → (e : Entry) × (get_elem? ys q ≡ some e) × (e.id ≡ j)
      cut_found j q h =
          let was : Dict.get idx.id_to_pos j ≡ some q = ground (arith, cut_get j) in
          let other : j ≢ id = ground (arith, cut_get j) in
          let (e, at_e, same) = w.found j q was in
          let away : q ≢ pos = other_position q e at_e (ground arith) in
          (e, ground (arith, elems q, pos_lt, lt_of_get_elem? idx.entries q at_e), same)

      cut_mapped :
          (q : ℕ) (e : Entry) → get_elem? ys q ≡ some e → Dict.get cut.id_to_pos e.id ≡ some q
      cut_mapped q e h =
          let short = lt_of_get_elem? ys q h in
          ground (arith, elems q short, cut_get e.id, w.mapped q e, at)

      cut_sized : (q : ℕ) (e : Entry) → get_elem? ys q ≡ some e → Vector.dim e.vector ≡ idx.dim
      cut_sized q e h =
          let short = lt_of_get_elem? ys q h in ground (arith, elems q short, w.sized q e)

      cut_rest : (j : VectorId) → j ≢ id → stored cut j ≡ stored idx j
      cut_rest j ne = elim (Option-cases (Dict.get idx.id_to_pos j)) [
        | inl absent ↦ ground (arith, absent, cut_get j)
        | inr (q, was) ↦
            let (e, at_e, same) = w.found j q was in
            let away : q ≢ pos = other_position q e at_e (ground arith) in
            ground
              (arith, was, at_e, pos_lt, cut_get j, elems q, lt_of_get_elem? idx.entries q at_e)
      ]

      pub cut-IsWithout : IsWithout idx id cut
      cut-IsWithout = record {
        valid = record { found = cut_found; mapped = cut_mapped; sized = cut_sized };
        gone = ground (arith, cut_get id);
        rest = cut_rest;
        same_dim = refl;
        same_metric = refl;
      }

  -- A present id is removed.
  pub remove_present :
      (idx : FlatIndex) (w : IsValid idx) (id : VectorId) (pos : ℕ)
      → Dict.get idx.id_to_pos id ≡ some pos
      → (idx' : FlatIndex) × (remove idx id ≡ ok (idx', true)) × IsWithout idx id idx'
  unfolding remove
  remove_present idx w id pos at =
      let (e, at_pos, same) = w.found id pos at in
      let (ys, removed, size, elems) =
        swap_remove_lem idx.entries pos (lt_of_get_elem? idx.entries pos at_pos) in
      elim (Bool-cases (ltb pos (length ys))) [
        | inl t ↦
            let inside : pos < length ys = ground arith in
            let (moved, last) = get_elem?_of_lt idx.entries (length ys) (omega arith) in
            (
              swapped idx w id pos at ys size elems moved last inside,
              ground (arith, at, removed, t, elems pos inside, last),
              swapped-IsWithout idx w id pos at ys size elems moved last inside,
            )
        | inr t ↦
            let outside : ¬ (pos < length ys) = ground arith in
            (
              cut idx w id pos at ys size elems outside,
              ground (arith, at, removed, t),
              cut-IsWithout idx w id pos at ys size elems outside,
            )
      ]

  -- An absent id changes nothing.
  pub remove_absent :
      (idx : FlatIndex) (id : VectorId)
      → Dict.get idx.id_to_pos id ≡ none
      → remove idx id ≡ ok (idx, false)
  unfolding remove
  remove_absent idx id at = ground (arith, at)

  -- On a well-formed index a removal never fails. It reports whether the id was stored, and leaves a
  -- well-formed index, of the same dimension and metric, in which the id is not stored and every
  -- other id has what it had.
  pub remove-IsWithout :
      (idx : FlatIndex)
      → IsValid idx
      → (id : VectorId)
      → (idx' : FlatIndex) × (remove idx id ≡ ok (idx', contains idx id)) × IsWithout idx id idx'
  unfolding contains Dict.contains_key
  remove-IsWithout idx w id = elim (Option-cases (Dict.get idx.id_to_pos id)) [
    | inl absent ↦ (
      idx,
      ground (arith, absent, remove_absent idx id absent),
      record {
        valid = w;
        gone = ground (arith, absent);
        rest = λ j ne. refl;
        same_dim = refl;
        same_metric = refl;
      },
    )
    | inr (pos, at) ↦
        let (idx', removed, without) = remove_present idx w id pos at in
        (idx', ground (arith, at, removed), without)
  ]
