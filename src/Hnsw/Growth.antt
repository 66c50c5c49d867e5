-- ===== src/Hnsw/Growth.antt =====
-- `add_with_payload` on a well-formed index.
use vexdb.Hnsw.Grown.{Inserts, is_taken-ok, first-IsGrown, next-IsGrown}
use native.Mathlib.Nat.{mod-eq_of_lt}
use vexdb.Prelude.{
  suc, ◌+◌, ◌*◌, ◌≤◌, ◌<◌, true, false, not, Option, ◌≡◌, ap, ◌∙◌, arith, length, Bool-cases,
  Option-cases, ◌⊎◌, inl, inr, ◌==◌, ltb,
}
use vexdb.Platform.{Platform}
use vexdb.Platform.Laws.{FloatOrder}
use vexdb.Error.{VectorId, ok, panic, ◌>>=◌}
use vexdb.Vector
use vexdb.Vector.{Vector}
use vexdb.Collections.Dict.{nat_eq}
use vexdb.Hnsw.{HnswIndex, has_room}
use vexdb.Hnsw.Level.{sample_level}
use vexdb.Hnsw.Insert.{layers_of, u32_max, add_with_payload}
use vexdb.Hnsw.Link.{Overfull}
use vexdb.Hnsw.Insertion.{IsIndex}

module _ ⦃p : Platform⦄ where
  open p use {F32, Value, usize_max}

  module _ (idx : HnswIndex) (w : IsIndex idx) (id : VectorId) where
    -- What an insertion into a well-formed index comes to, if there may be no room to link it.
    pub add_with_payload_cases :
        FloatOrder p
        → (v : Vector) (payload : Option Value) → Vector.dim v ≡ idx.dim
        → 1 ≤ idx.config.ef_construction
        → length idx.nodes ≤ u32_max
        → (sample_level idx).1 < usize_max
        → (Overfull idx × (add_with_payload idx id v payload ≡ panic))
          ⊎ Inserts idx id v payload (add_with_payload idx id v payload)
    unfolding add_with_payload
    add_with_payload_cases floats v payload fits positive room low =
        let level = (sample_level idx).1 in
        let whole : layers_of level ≡ suc level =
          mod-eq_of_lt {n = level + 1} {m = usize_max + 1} (omega (arith, low)) ∙ omega arith in
        let sized : not (Vector.dim v == idx.dim) ≡ false = ground (arith, fits) in
        let roomy : ltb u32_max (length idx.nodes) ≡ false = ground (arith, room) in
        let (taken, test) = is_taken-ok idx w id in
        elim (Bool-cases taken) [
          | inl e ↦ inr (inl (test ∙ ap ok e, simp (sized, test, e, ◌>>=◌)))
          | inr e ↦ elim (Option-cases idx.entry_point) [
            | inl empty ↦ inr (
                inr (
                  test ∙ ap ok e,
                  _,
                  simp (sized, test, e, roomy, empty, ◌>>=◌),
                  first-IsGrown idx w id v payload level fits whole,
                ))
            | inr (entry, entered) ↦
                elim (next-IsGrown idx w id v payload level fits whole floats positive entry
                  entered) [
                    | inl (full, stop) ↦
                        inl (full, simp (sized, test, e, roomy, entered, stop, ◌>>=◌))
                    | inr (idx', run, grown) ↦ inr (
                        inr (
                          test ∙ ap ok e,
                          idx',
                          simp (sized, test, e, roomy, entered, run, ◌>>=◌),
                          grown,
                        ))
                  ]
          ]
        ]

    -- An insertion into a well-formed index returns. Where `f32::total_cmp` is a total order that agrees
    -- with `<`, every vector of the arena has the dimension of the index, links stay on their layers, the
    -- entry point has every layer up to the highest and the map leads into the arena, for a vector of the
    -- dimension, `ef_construction` at least 1, `m` so small that 2m candidates take at most isize::MAX
    -- bytes, at most u32::MAX nodes and a sampled level below usize::MAX: either a live node has the id,
    -- and the insertion fails with the error that says so; or none has, and it gives an index that is
    -- again well formed, of the same dimension and configuration, with one node more, which the id names
    -- and which has the vector and the payload, and the old nodes with their ids, vectors, tombstones
    -- and payloads.
    pub add_with_payload-IsIndex :
        FloatOrder p
        → (v : Vector) (payload : Option Value) → Vector.dim v ≡ idx.dim
        → 1 ≤ idx.config.ef_construction
        → has_room (idx.config.m * 2) ≡ true
        → length idx.nodes ≤ u32_max
        → (sample_level idx).1 < usize_max
        → Inserts idx id v payload (add_with_payload idx id v payload)
    add_with_payload-IsIndex floats v payload fits positive links room low =
        elim (add_with_payload_cases floats v payload fits positive room low) [
          | inl (full, stop) ↦ cc
          | inr inserts ↦ inserts
        ]
