-- ===== src/Hnsw/SelectionErrors.antt =====
-- Neighbour selection gives no error.
use vexdb.Prelude.{ℕ, List, [], ◌∷◌, length, leb, Bool-cases, inl, inr}
use vexdb.Platform.{Platform}
use vexdb.Error.Yield.{Yields, Any, >>=-Yields}
use vexdb.Collections.Heap.{sort}
use vexdb.Collections.Dict.{nat_eq}
use vexdb.Hnsw.{
  has_room, with_capacity, HnswIndex, Candidate, cmp_candidate, node_at, neighbors_at, dist_to_node,
}
use vexdb.Hnsw.Insert.{dominated, select_loop, select_neighbors, measured, shrink_neighbors}
use vexdb.Hnsw.Errors.{node_at-Yields, neighbors_at-Yields, dist_to_node-Yields}

module _ ⦃p : Platform⦄ where
  open p use {F32, Value, lt_f}

  with_capacity-Yields : (n : ℕ) → Yields Any (with_capacity n)
  with_capacity-Yields n = elim (Bool-cases (has_room n)) [
    | inl room ↦ rw room tt
    | inr full ↦ rw full tt
  ]

  module _ (idx : HnswIndex) where
    dominated-Yields :
        (v : List F32) (d : F32) (selected : List Candidate)
        → Yields Any (dominated idx v d selected)
    unfolding dominated
    dominated-Yields v d [] = tt
    dominated-Yields v d (s ∷ selected) =
        >>=-Yields Any Any (dist_to_node idx v s.node) _ (dist_to_node-Yields idx v s.node) λ x _.
          elim (Bool-cases (lt_f x d)) [
            | inl h ↦ rw h tt
            | inr h ↦ rw h (dominated-Yields v d selected)
          ]

    select_loop-Yields :
        (m : ℕ) (cs selected : List Candidate) (pruned : List ℕ)
        → Yields Any (select_loop idx m cs selected pruned)
    unfolding select_loop
    select_loop-Yields m [] selected pruned = tt
    select_loop-Yields m (c ∷ cs) selected pruned = elim (Bool-cases (leb m (length selected))) [
      | inl h ↦ rw (h, select_loop) tt
      | inr h ↦
          rw (h, select_loop)
            (>>=-Yields Any Any (node_at idx c.node) _ (node_at-Yields idx c.node) λ node _.
              >>=-Yields Any Any (dominated idx node.vector.values c.distance selected) _
                (dominated-Yields node.vector.values c.distance selected)
                λ dom _. elim (Bool-cases dom) [
                  | inl e ↦ rw e (select_loop-Yields m cs selected _)
                  | inr e ↦ rw e (select_loop-Yields m cs _ pruned)
                ])
    ]

    pub select_neighbors-Yields :
        (cands : List Candidate) (m : ℕ) → Yields Any (select_neighbors idx cands m)
    unfolding select_neighbors
    select_neighbors-Yields cands m =
        >>=-Yields Any Any (with_capacity m) _ (with_capacity-Yields m) λ _ _.
          >>=-Yields Any Any (select_loop idx m cands [] []) _ (select_loop-Yields m cands [] [])
            λ _ _. tt

    measured-Yields : (base : List F32) (nbs : List ℕ) → Yields Any (measured idx base nbs)
    unfolding measured
    measured-Yields base [] = tt
    measured-Yields base (nb ∷ nbs) =
        >>=-Yields Any Any (dist_to_node idx base nb) _ (dist_to_node-Yields idx base nb)
          λ d _. >>=-Yields Any Any (measured idx base nbs) _ (measured-Yields base nbs) λ _ _. tt

    pub shrink_neighbors-Yields :
        (node layer m_max : ℕ) → Yields Any (shrink_neighbors idx node layer m_max)
    unfolding shrink_neighbors
    shrink_neighbors-Yields node layer m_max =
        >>=-Yields Any Any (node_at idx node) _ (node_at-Yields idx node) λ base _.
          >>=-Yields Any Any (neighbors_at idx node layer) _ (neighbors_at-Yields idx node layer)
            λ nbs _.
              >>=-Yields Any Any (measured idx base.vector.values nbs) _
                (measured-Yields base.vector.values nbs)
                λ cands _. select_neighbors-Yields (sort cmp_candidate cands) m_max
