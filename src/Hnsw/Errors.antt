-- ===== src/Hnsw/Errors.antt =====
-- The errors of an insertion: after its first two tests there are none.
use vexdb.Prelude.{
  ℕ, zero, suc, ◌+◌, Bool, false, ◌&&◌, ◌||◌, List, [], ◌∷◌, length, get_elem?, replicate, leb, ltb,
  Bool-cases, inl, inr,
}
use vexdb.Platform.{Platform}
use vexdb.Error.{Outcome, expect}
use vexdb.Error.Yield.{Yields, Any, >>=-Yields, expect-Yields, expect_ok-Yields}
use vexdb.Distance.Metric.{distance}
use vexdb.Hnsw.{HnswIndex, Candidate, node_at, neighbors_at, dist_to_node}
use vexdb.Hnsw.Trace.{TraceSink}
use vexdb.Hnsw.Greedy.{Climb, climb_round, climb, greedy_closest}
use vexdb.Hnsw.Layer.{Beam, visit, worst_of, evaluate, expand, beam_loop, search_layer}
use vexdb.Hnsw.Search.{descend}

module _ ⦃p : Platform⦄ where
  open p use {F32, lt_f}

  pub node_at-Yields : (idx : HnswIndex) (n : ℕ) → Yields Any (node_at idx n)
  unfolding node_at
  node_at-Yields idx n = expect-Yields (get_elem? idx.nodes n)

  pub neighbors_at-Yields : (idx : HnswIndex) (n layer : ℕ) → Yields Any (neighbors_at idx n layer)
  unfolding neighbors_at
  neighbors_at-Yields idx n layer =
      >>=-Yields Any Any (node_at idx n) _ (node_at-Yields idx n)
        λ node _. expect-Yields (get_elem? node.neighbors layer)

  pub dist_to_node-Yields :
      (idx : HnswIndex) (query : List F32) (n : ℕ) → Yields Any (dist_to_node idx query n)
  unfolding dist_to_node
  dist_to_node-Yields idx query n =
      >>=-Yields Any Any (node_at idx n) _ (node_at-Yields idx n)
        λ node _. expect_ok-Yields (distance idx.metric query node.vector.values)

  module _ {S : Type 0} (sink : TraceSink S) (idx : HnswIndex) (query : List F32) where
    climb_round-Yields :
        (layer : ℕ) (nbs : List ℕ) (c : Climb) (s : S)
        → Yields Any (climb_round sink idx query layer nbs c s)
    unfolding climb_round
    climb_round-Yields layer [] c s = tt
    climb_round-Yields layer (nb ∷ nbs) c s =
        >>=-Yields Any Any (dist_to_node idx query nb) _ (dist_to_node-Yields idx query nb) λ d _.
          elim (Bool-cases (lt_f d c.ep_dist)) [
            | inl h ↦ rw h (climb_round-Yields layer nbs _ _)
            | inr h ↦ rw h (climb_round-Yields layer nbs c _)
          ]

    climb-Yields :
        (rounds layer ep : ℕ) (ep_dist : F32) (s : S)
        → Yields Any (climb sink rounds idx query layer ep ep_dist s)
    unfolding climb
    climb-Yields zero layer ep ep_dist s = tt
    climb-Yields (suc rounds) layer ep ep_dist s =
        >>=-Yields Any Any (neighbors_at idx ep layer) _ (neighbors_at-Yields idx ep layer) λ nbs _.
          >>=-Yields Any Any (climb_round sink idx query layer nbs _ s) _
            (climb_round-Yields layer nbs _ s)
            λ (c, s') _. elim (Bool-cases c.improved) [
              | inl h ↦ rw h (climb-Yields rounds layer c.ep c.ep_dist s')
              | inr h ↦ rw h tt
            ]

    pub descend-Yields :
        (low count : ℕ) (at : ℕ × F32) (s : S) → Yields Any (descend sink idx query low count at s)
    unfolding descend greedy_closest
    descend-Yields low zero at s = tt
    descend-Yields low (suc count) (ep, ep_dist) s =
        >>=-Yields Any Any (greedy_closest sink idx query ep ep_dist (low + count) s) _
          (climb-Yields (suc (length idx.nodes)) (low + count) ep ep_dist s)
          λ (at', s') _. descend-Yields low count at' s'

    module _ (admit : ℕ → Outcome Bool) (admit-Yields : (n : ℕ) → Yields Any (admit n)) where
      evaluate-Yields :
          (ef from nb : ℕ) (d : F32) (b : Beam) (s : S)
          → Yields Any (evaluate sink ef admit from nb d b s)
      unfolding evaluate
      evaluate-Yields ef from nb d b s =
          elim (Bool-cases (ltb (length b.best) ef || lt_f d (worst_of b.best))) [
            | inl h ↦ rw h (
                >>=-Yields Any Any (admit nb) _ (admit-Yields nb)
                  λ ad _. elim (Bool-cases ad) [ inl e ↦ rw e tt | inr e ↦ rw e tt ])
            | inr h ↦ rw h tt
          ]

      expand-Yields :
          (ef from : ℕ) (nbs : List ℕ) (b : Beam) (s : S)
          → Yields Any (expand sink idx query ef admit from nbs b s)
      unfolding expand
      expand-Yields ef from [] b s = tt
      expand-Yields ef from (nb ∷ nbs) b s =
          >>=-Yields Any Any (expect (get_elem? b.visited nb)) _
            (expect-Yields (get_elem? b.visited nb))
            λ seen _. elim (Bool-cases seen) [
              | inl h ↦ rw h (expand-Yields ef from nbs b s)
              | inr h ↦ rw h (
                  >>=-Yields Any Any (dist_to_node idx query nb) _
                    (dist_to_node-Yields idx query nb)
                    λ d _.
                      >>=-Yields Any Any
                        (evaluate sink ef admit from nb d (visit b nb) (sink.distance_eval s)) _
                        (evaluate-Yields ef from nb d _ _)
                        λ (b', s') _. expand-Yields ef from nbs b' s')
            ]

      beam_loop-Yields :
          (rounds ef layer : ℕ) (frontier : List Candidate) (b : Beam) (s : S)
          → Yields Any (beam_loop sink rounds idx query ef layer admit frontier b s)
      unfolding beam_loop
      beam_loop-Yields rounds ef layer [] b s = tt
      beam_loop-Yields zero ef layer (current ∷ frontier) b s = tt
      beam_loop-Yields (suc rounds) ef layer (current ∷ frontier) b s =
          elim (Bool-cases (leb ef (length b.best) && lt_f (worst_of b.best) current.distance)) [
            | inl h ↦ rw (h, beam_loop) tt
            | inr h ↦
                rw (h, beam_loop)
                  (>>=-Yields Any Any (neighbors_at idx current.node layer) _
                    (neighbors_at-Yields idx current.node layer)
                    λ nbs _.
                      >>=-Yields Any Any
                        (expand sink idx query ef admit current.node nbs
                          (record b { frontier = frontier }) s)
                        _ (expand-Yields ef current.node nbs _ s)
                        λ (b', s') _. beam_loop-Yields rounds ef layer b'.frontier b' s')
          ]

      pub search_layer-Yields :
          (start : Candidate) (ef layer : ℕ) (s : S)
          → Yields Any (search_layer sink idx query start ef layer admit s)
      unfolding search_layer
      search_layer-Yields start ef layer s =
          let fresh = replicate (length idx.nodes) false in
          >>=-Yields Any Any (expect (get_elem? fresh start.node)) _
            (expect-Yields (get_elem? fresh start.node))
            λ _ _. >>=-Yields Any Any (admit start.node) _ (admit-Yields start.node) λ ad _.
              >>=-Yields Any Any
                (beam_loop sink (suc (length idx.nodes)) idx query ef layer admit (start ∷ []) _ s)
                _ (beam_loop-Yields (suc (length idx.nodes)) ef layer (start ∷ []) _ s)
                λ (b', s') _. tt
