-- ===== src/Flat/Invariant.antt =====
-- When a flat index is well formed: the map and the entries name each other, and every stored
-- vector has the index's dimension.
use vexdb.Prelude.{ℕ, some, ◌≡◌, get_elem?}
use vexdb.Platform.{Platform}
use vexdb.Error.{VectorId}
use vexdb.Vector
use vexdb.Collections.Dict
use vexdb.Collections.Dict.{nat_eq}
use vexdb.Flat.{FlatIndex, Entry, new}
use vexdb.Distance.Metric.{DistanceMetric}

pub record IsValid ⦃p : Platform⦄ (idx : FlatIndex) : Type 0 where
  -- the map points at an entry of the id
  pub found :
      (id : VectorId) (pos : ℕ)
      → Dict.get idx.id_to_pos id ≡ some pos
      → (e : Entry) × (get_elem? idx.entries pos ≡ some e) × (e.id ≡ id)
  -- every entry is the one that the map has for its id
  pub mapped :
      (pos : ℕ) (e : Entry)
      → get_elem? idx.entries pos ≡ some e
      → Dict.get idx.id_to_pos e.id ≡ some pos
  pub sized :
      (pos : ℕ) (e : Entry) → get_elem? idx.entries pos ≡ some e → Vector.dim e.vector ≡ idx.dim

module _ ⦃p : Platform⦄ where
  pub new-IsValid : (dim : ℕ) (metric : DistanceMetric) → IsValid (new dim metric)
  unfolding new Dict.get
  new-IsValid dim metric = record {
    found = λ id pos h. cc;
    mapped = λ pos e h. cc;
    sized = λ pos e h. cc;
  }
