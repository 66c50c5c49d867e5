-- ===== src/Flat/Add.antt =====
-- `FlatIndex::add_with_payload` and its errors.
use vexdb.Prelude.{
  ℕ, true, Option, none, some, [], ◌∷◌, ◌++◌, ◌≡◌, ◌≢◌, arith, length, get_elem?, Bool-cases, inl,
  inr, ◌==◌,
}
use vexdb.Platform.{Platform}
use vexdb.Error.{VectorId, ok, err, dimension_mismatch, duplicate_id}
use vexdb.Vector
use vexdb.Vector.{Vector}
use vexdb.Collections.Dict
use vexdb.Collections.Dict.{nat_eq}
use vexdb.Collections.Vec.{get_elem?-push, lt_of_get_elem?}
use vexdb.Flat.{FlatIndex, Entry, add_with_payload}
use vexdb.Flat.Invariant.{IsValid}

module _ ⦃p : Platform⦄ where
  -- The three outcomes, in the order of the code's tests.
  pub add_mismatch :
      (idx : FlatIndex) (id : VectorId) (v : Vector) (payload : Option p.Value)
      → Vector.dim v ≢ idx.dim
      → add_with_payload idx id v payload ≡ err (dimension_mismatch idx.dim (Vector.dim v))
  unfolding add_with_payload
  add_mismatch idx id v payload h = ground arith

  pub add_duplicate :
      (idx : FlatIndex) (id : VectorId) (v : Vector) (payload : Option p.Value)
      → Vector.dim v ≡ idx.dim
      → Dict.contains_key idx.id_to_pos id ≡ true
      → add_with_payload idx id v payload ≡ err (duplicate_id id)
  unfolding add_with_payload
  add_duplicate idx id v payload h k = ground arith

  module _ (idx : FlatIndex) (id : VectorId) (v : Vector) (payload : Option p.Value) where
    -- The index with the new entry behind the others.
    abbrev pub appended : FlatIndex
    appended = record idx {
      entries = idx.entries ++ (record { id = id; vector = v; payload = payload } ∷ []);
      id_to_pos = Dict.insert idx.id_to_pos id (length idx.entries);
    }

    -- What a successful call found, and what it returns.
    pub add_ok :
        {idx' : FlatIndex}
        → add_with_payload idx id v payload ≡ ok idx'
        → (Vector.dim v ≡ idx.dim) × (Dict.get idx.id_to_pos id ≡ none) × (idx' ≡ appended)
    unfolding add_with_payload Dict.contains_key
    add_ok h = ground arith

    pub add-appended :
        Vector.dim v ≡ idx.dim
        → Dict.get idx.id_to_pos id ≡ none
        → add_with_payload idx id v payload ≡ ok appended
    unfolding add_with_payload Dict.contains_key
    add-appended fits fresh = ground arith

    appended_found :
        IsValid idx
        → (j : VectorId) (pos : ℕ) → Dict.get appended.id_to_pos j ≡ some pos
        → (e : Entry) × (get_elem? appended.entries pos ≡ some e) × (e.id ≡ j)
    appended_found w j pos q = elim (Bool-cases (id == j)) [
      | inl e ↦ (
        record { id = id; vector = v; payload = payload },
        ground (
          arith,
          get_elem?-push idx.entries (record { id = id; vector = v; payload = payload }) pos,
          Dict.get-insert idx.id_to_pos id (length idx.entries) j,
        ),
        ground arith,
      )
      | inr ne ↦
          let (e, at, same) =
            w.found j pos
              (ground (arith, Dict.get-insert idx.id_to_pos id (length idx.entries) j)) in
          (
            e,
            ground (
              arith,
              lt_of_get_elem? idx.entries pos at,
              get_elem?-push idx.entries (record { id = id; vector = v; payload = payload }) pos,
            ),
            same,
          )
    ]

    appended_mapped :
        IsValid idx
        → Dict.get idx.id_to_pos id ≡ none
        → (pos : ℕ) (e : Entry) → get_elem? appended.entries pos ≡ some e
        → Dict.get appended.id_to_pos e.id ≡ some pos
    appended_mapped w fresh pos e q = ground (
      arith,
      get_elem?-push idx.entries (record { id = id; vector = v; payload = payload }) pos,
      Dict.get-insert idx.id_to_pos id (length idx.entries) e.id,
      w.mapped pos e,
    )

    appended_sized :
        IsValid idx
        → Vector.dim v ≡ idx.dim
        → (pos : ℕ) (e : Entry) → get_elem? appended.entries pos ≡ some e
        → Vector.dim e.vector ≡ idx.dim
    appended_sized w fits pos e q = ground (
      arith,
      get_elem?-push idx.entries (record { id = id; vector = v; payload = payload }) pos,
      w.sized pos e,
    )

    pub add-IsValid :
        {idx' : FlatIndex}
        → IsValid idx
        → add_with_payload idx id v payload ≡ ok idx'
        → IsValid idx'
    add-IsValid w h =
        let (fits, fresh, e) = add_ok h in
        rw e (record {
          found = appended_found w;
          mapped = appended_mapped w fresh;
          sized = appended_sized w fits;
        })
