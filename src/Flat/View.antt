-- ===== src/Flat/View.antt =====
-- A flat index as a finite map from id to entry: what each operation does to the map, and what the
-- accessors read of it.
use vexdb.Prelude.{
  ◌⊎◌, Bool-cases, Option, none, some, ◌≡◌, ◌≢◌, arith, length, ◌==◌, Option-cases, inl, inr,
  if◌then◌else◌,
}
use vexdb.Platform.{Platform}
use vexdb.Error.{VectorId, ok, err, dimension_mismatch, duplicate_id}
use vexdb.Vector
use vexdb.Vector.{Vector}
use vexdb.Collections.Dict
use vexdb.Collections.Dict.{nat_eq}
use vexdb.Collections.Vec.{get_elem?-push, lt_of_get_elem?}
use vexdb.Flat.{FlatIndex, Entry, add_with_payload, payload, vector}
use vexdb.Flat.Invariant.{IsValid}
use vexdb.Flat.Add.{appended, add_ok, add_mismatch, add_duplicate, add-appended, add-IsValid}
use vexdb.Flat.Remove.{stored}
use mathlib.Core.Option

module _ ⦃p : Platform⦄ where
  module _ (idx : FlatIndex) (w : IsValid idx) where
    -- After a successful add the new id has the new entry and every other id what it had.
    pub stored-add :
        (id : VectorId) (v : Vector) (pl : Option p.Value) {idx' : FlatIndex}
        → add_with_payload idx id v pl ≡ ok idx'
        → (j : VectorId)
        → stored idx' j
          ≡ (if id == j then some (record { id = id; vector = v; payload = pl }) else stored idx j)
    stored-add id v pl {idx'} h j =
        let (fits, fresh, e) = add_ok idx id v pl h in
        let new : Entry = record { id = id; vector = v; payload = pl } in
        let n = length idx.entries in
        let after = Dict.get-insert idx.id_to_pos id n j in
        rw e (elim (Option-cases (Dict.get idx.id_to_pos j)) [
          | inl absent ↦ ground (arith, after, absent, get_elem?-push idx.entries new n)
          | inr (pos, was) ↦
              let (f, at, same) = w.found j pos was in
              ground (
                arith,
                after,
                was,
                at,
                fresh,
                lt_of_get_elem? idx.entries pos at,
                get_elem?-push idx.entries new n,
                get_elem?-push idx.entries new pos,
              )
        ])

    -- The three outcomes of an add on a well-formed index: a vector of another dimension is refused, then
    -- an id that is stored is refused, and else the add succeeds, the new index is well formed, its
    -- new entry is stored under the id and every other id has what it had.
    pub add_cases :
        (id : VectorId) (v : Vector) (pl : Option p.Value)
        → ((Vector.dim v ≢ idx.dim)
            × (add_with_payload idx id v pl ≡ err (dimension_mismatch idx.dim (Vector.dim v))))
          ⊎ (((Vector.dim v ≡ idx.dim)
                × (stored idx id ≢ none)
                × (add_with_payload idx id v pl ≡ err (duplicate_id id)))
              ⊎ ((Vector.dim v ≡ idx.dim)
                  × (stored idx id ≡ none)
                  × ((idx' : FlatIndex) × (add_with_payload idx id v pl ≡ ok idx')
                      × IsValid idx'
                      × (stored idx' id ≡ some (record { id = id; vector = v; payload = pl }))
                      × ((j : VectorId) → j ≢ id → stored idx' j ≡ stored idx j))))
    unfolding Dict.contains_key
    add_cases id v pl = elim (Bool-cases (Vector.dim v == idx.dim)) [
      | inr ne ↦ inl (ground arith, add_mismatch idx id v pl (ground arith))
      | inl same ↦
          let fits : Vector.dim v ≡ idx.dim = ground arith in
          elim (Option-cases (Dict.get idx.id_to_pos id)) [
            | inr (pos, at) ↦
                let (f, at_f, id_f) = w.found id pos at in
                inr (
                  inl (
                    fits,
                    ground (arith, at, at_f),
                    add_duplicate idx id v pl fits (ground (arith, at)),
                  ))
            | inl absent ↦
                let added = add-appended idx id v pl fits absent in
                inr (
                  inr (
                    fits,
                    ground (arith, absent),
                    (
                      appended idx id v pl,
                      added,
                      add-IsValid idx id v pl w added,
                      ground (arith, stored-add id v pl added id),
                      λ j ne. ground (arith, stored-add id v pl added j),
                    ),
                  ))
          ]
    ]

    -- On a well-formed index `payload` and `vector` never panic: they give the payload and the vector
    -- of the entry that is stored for the id, and none if there is none.
    pub payload-stored :
        (id : VectorId)
        → (payload idx id ≡ ok (Option.bind (stored idx id) (λ e. e.payload)))
          × (vector idx id ≡ ok (Option.map (λ e. e.vector) (stored idx id)))
    unfolding payload vector Option.bind
    payload-stored id = elim (Option-cases (Dict.get idx.id_to_pos id)) [
      | inl absent ↦ ground (arith, absent)
      | inr (pos, was) ↦ let (f, at, same) = w.found id pos was in ground (arith, was, at)
    ]
