-- ===== src/Hnsw/Built.antt =====
-- The indexes that insertions and removals make of an empty one.
use vexdb.Prelude.{
  ℕ, ◌≤◌, ◌<◌, Bool, false, not, Option, ◌≡◌, refl, ◌∙◌, arith, length, Bool-cases, inl, inr, ◌==◌,
  ltb,
}
use vexdb.Platform.{Platform}
use vexdb.Platform.Laws.{FloatOrder}
use vexdb.Error.{VectorId, ok, err, panic, ◌>>=◌, dimension_mismatch, duplicate_id}
use vexdb.Vector
use vexdb.Vector.{Vector}
use vexdb.Collections.Dict
use vexdb.Collections.Dict.{nat_eq}
use vexdb.Distance.Metric.{DistanceMetric}
use vexdb.Hnsw.{HnswIndex, HnswConfig, new}
use vexdb.Hnsw.Level.{sample_level, level_of, mix}
use vexdb.Hnsw.Insert.{is_taken, u32_max, add_with_payload, remove}
use vexdb.Hnsw.Insertion.{IsIndex}
use vexdb.Hnsw.Burial.{remove-IsIndex}
use vexdb.Hnsw.Grown.{IsGrown, is_taken-ok}
use vexdb.Hnsw.Growth.{add_with_payload_cases}

module _ ⦃p : Platform⦄ where
  open p use {F32, Value, usize_max}

  -- The configurations that the index works with: a beam of at least one node, and no level so high that
  -- its successor wraps.
  pub record IsUsable (config : HnswConfig) : Type 0 where
    pub positive : 1 ≤ config.ef_construction
    pub levels : (state : ℕ) → level_of config.m (mix state) < usize_max

  -- The indexes that successful insertions and removals make of the empty one.
  pub data Built (dim : ℕ) (metric : DistanceMetric) (config : HnswConfig)
      : HnswIndex → Type 0 where
    empty : Built dim metric config (new dim metric config)
    added :
        {idx idx' : HnswIndex} (id : VectorId) (v : Vector) (payload : Option Value)
        → Built dim metric config idx
        → add_with_payload idx id v payload ≡ ok idx'
        → Built dim metric config idx'
    removed :
        {idx idx' : HnswIndex} (id : VectorId) (was : Bool)
        → Built dim metric config idx
        → remove idx id ≡ ok (idx', was)
        → Built dim metric config idx'

  new-IsIndex :
      (dim : ℕ) (metric : DistanceMetric) (config : HnswConfig) → IsIndex (new dim metric config)
  unfolding new Dict.get
  new-IsIndex dim metric config = record {
    graph = record {
      vectors = record { sized = λ n node at. cc };
      links = λ layer. record { linked = λ n node list at listed. cc };
      entry = λ ep layer at low. cc;
    };
    placed = λ id pos at. cc;
  }

  module _ (idx idx' : HnswIndex) (w : IsIndex idx) (id : VectorId) (v : Vector)
      (payload : Option Value) (run : add_with_payload idx id v payload ≡ ok idx') where
    -- An insertion that succeeds was given a vector of the dimension of the index, and had room.
    accepted_dim : Vector.dim v ≡ idx.dim
    unfolding add_with_payload
    accepted_dim = elim (Bool-cases (Vector.dim v == idx.dim)) [
      | inl e ↦ ground (arith, e)
      | inr ne ↦
          let refused : add_with_payload idx id v payload
              ≡ err (dimension_mismatch idx.dim (Vector.dim v)) =
            simp (ne) in
          cc
    ]

    accepted_room : length idx.nodes ≤ u32_max
    unfolding add_with_payload
    accepted_room =
        let (taken, test) = is_taken-ok idx w id in
        let sized : not (Vector.dim v == idx.dim) ≡ false = ground (arith, accepted_dim) in
        elim (Bool-cases taken) [
          | inl e ↦
              let refused : add_with_payload idx id v payload ≡ err (duplicate_id id) =
                simp (sized, test, e, ◌>>=◌) in
              cc
          | inr e ↦ elim (Bool-cases (ltb u32_max (length idx.nodes))) [
            | inr room ↦ ground (arith, room)
            | inl full ↦
                let refused : add_with_payload idx id v payload ≡ panic =
                  simp (sized, test, e, full, ◌>>=◌) in
                cc
          ]
        ]

  module _ (floats : FloatOrder p) (dim : ℕ) (metric : DistanceMetric) (config : HnswConfig)
      (usable : IsUsable config) where
    pub add_with_payload-kept :
        (idx idx' : HnswIndex) (id : VectorId) (v : Vector) (payload : Option Value)
        → IsIndex idx
        → idx.config ≡ config
        → add_with_payload idx id v payload ≡ ok idx'
        → (is_taken idx id ≡ ok false) × IsGrown idx id v payload idx'
    unfolding sample_level
    add_with_payload-kept idx idx' id v payload w same run =
        let fits = accepted_dim idx idx' w id v payload run in
        let room = accepted_room idx idx' w id v payload run in
        let low : (sample_level idx).1 < usize_max = rw same (usable.levels _) in
        elim (add_with_payload_cases idx w id floats v payload fits (rw same usable.positive) room
          low) [
            | inl (full, stop) ↦ cc
            | inr (inl (_, refused)) ↦ cc
            | inr (inr (free, other, done, grown)) ↦
                let e : other ≡ idx' = cc in (free, rw (← e) grown)
          ]

    -- The graph stays well formed. Where `f32::total_cmp` is a total order that agrees with `<`, and the
    -- configuration has an `ef_construction` of at least 1 and samples no level as high as usize::MAX, in
    -- every index that successful insertions and removals, in any order, make of the empty one: the
    -- vectors have the dimension of the index, links stay on their layers, the entry point has every layer
    -- up to the highest, the map leads into the arena, and the configuration and the dimension are those
    -- it was made with.
    pub Built-IsIndex :
        {idx : HnswIndex}
        → Built dim metric config idx
        → IsIndex idx × (idx.config ≡ config) × (idx.dim ≡ dim)
    unfolding new
    Built-IsIndex empty = (new-IsIndex dim metric config, refl, refl)
    Built-IsIndex (added {idx = idx} {idx' = idx'} id v payload built run) =
        let (w, c, d) = Built-IsIndex built in
        let (_, grown) = add_with_payload-kept idx idx' id v payload w c run in
        (grown.index, grown.same_config ∙ c, grown.same_dim ∙ d)
    Built-IsIndex (removed {idx = idx} {idx' = idx'} id was built run) =
        let (w, c, d) = Built-IsIndex built in
        let (w', c', d') = remove-IsIndex idx idx' id was w run in (w', c' ∙ c, d' ∙ d)
