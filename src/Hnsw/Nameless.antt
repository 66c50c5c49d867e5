-- ===== src/Hnsw/Nameless.antt =====
-- The searches and the map from ids to nodes, which they do not read.
use Prim.Native.Nat.{max}
use vexdb.Prelude.{
  ◌%◌, ℕ, zero, suc, ◌+◌, Bool, true, false, not, ◌&&◌, Option, none, some, List, [], ◌∷◌, ◌≡◌,
  refl, length, get_elem?, take, leb, ◌==◌, if◌then◌else◌,
}
use vexdb.Platform.{Platform}
use vexdb.Error.{VectorId, Outcome, ok, err, ◌>>=◌, expect, invalid_k, dimension_mismatch}
use vexdb.Payload.{Filter}
use vexdb.Index.{selects}
use vexdb.Hnsw.{with_capacity, HnswIndex, Node, Candidate, node_at, neighbors_at, dist_to_node}
use vexdb.Hnsw.Trace.{TraceSink, noop_sink}
use vexdb.Hnsw.Greedy.{Climb, climb_round, climb, greedy_closest}
use vexdb.Hnsw.Layer.{Beam, worst_of, visit, evaluate, expand, beam_loop, search_layer}
use vexdb.Hnsw.Search.{
  descend, admits, to_results, search_inner, search_filtered_with_ef, keep_exact, scan_exact,
  search_exact,
}

module _ ⦃p : Platform⦄ (idx : HnswIndex) (names : List (VectorId × ℕ)) where
  open p use {F32, lt_f, usize_max}

  -- The index with another map.
  abbrev renamed : HnswIndex
  renamed = record idx { id_to_pos = names }

  to_results-same : (cs : List Candidate) → to_results renamed cs ≡ to_results idx cs
  unfolding to_results node_at
  to_results-same [] = refl
  to_results-same (c ∷ cs) = λ i. node_at idx c.node >>= λ node.
      to_results-same cs i >>= λ rest. ok (record { id = node.id; distance = c.distance } ∷ rest)

  module _ {S : Type 0} (sink : TraceSink S) (query : List F32) where
    climb_round-same :
        (layer : ℕ) (nbs : List ℕ) (c : Climb) (s : S)
        → climb_round sink renamed query layer nbs c s ≡ climb_round sink idx query layer nbs c s
    unfolding climb_round dist_to_node node_at
    climb_round-same layer [] c s = refl
    climb_round-same layer (nb ∷ nbs) c s = λ i. dist_to_node idx query nb >>= λ d.
        elim (lt_f d c.ep_dist) [
          | true ↦
              climb_round-same layer nbs (record { ep = nb; ep_dist = d; improved = true })
                (sink.descent_hop layer c.ep nb d (sink.distance_eval s)) i
          | false ↦ climb_round-same layer nbs c (sink.distance_eval s) i
        ]

    climb-same :
        (rounds layer ep : ℕ) (d : F32) (s : S)
        → climb sink rounds renamed query layer ep d s ≡ climb sink rounds idx query layer ep d s
    unfolding climb neighbors_at node_at
    climb-same zero layer ep d s = refl
    climb-same (suc rounds) layer ep d s = λ i. neighbors_at idx ep layer >>= λ nbs.
        climb_round-same layer nbs (record { ep = ep; ep_dist = d; improved = false }) s i
        >>= λ (c, s'). elim c.improved [
          | true ↦ climb-same rounds layer c.ep c.ep_dist s' i
          | false ↦ ok ((c.ep, c.ep_dist), s')
        ]

    descend-same :
        (low count : ℕ) (at : ℕ × F32) (s : S)
        → descend sink renamed query low count at s ≡ descend sink idx query low count at s
    unfolding descend greedy_closest
    descend-same low zero at s = refl
    descend-same low (suc count) (ep, d) s = λ i.
        climb-same (suc (length idx.nodes)) (low + count) ep d s i >>= λ (at', s').
        descend-same low count at' s' i

    module _ (ef : ℕ) (admit : ℕ → Outcome Bool) where
      expand-same :
          (from : ℕ) (nbs : List ℕ) (b : Beam) (s : S)
          → expand sink renamed query ef admit from nbs b s
            ≡ expand sink idx query ef admit from nbs b s
      unfolding expand dist_to_node node_at
      expand-same from [] b s = refl
      expand-same from (nb ∷ nbs) b s = λ i. expect (get_elem? b.visited nb) >>= λ seen. elim seen [
        | true ↦ expand-same from nbs b s i
        | false ↦ dist_to_node idx query nb >>= λ d.
            evaluate sink ef admit from nb d (visit b nb) (sink.distance_eval s) >>= λ (b', s').
            expand-same from nbs b' s' i
      ]

      beam_loop-same :
          (layer rounds : ℕ) (frontier : List Candidate) (b : Beam) (s : S)
          → beam_loop sink rounds renamed query ef layer admit frontier b s
            ≡ beam_loop sink rounds idx query ef layer admit frontier b s
      unfolding beam_loop neighbors_at node_at
      beam_loop-same layer zero [] b s = refl
      beam_loop-same layer (suc rounds) [] b s = refl
      beam_loop-same layer zero (current ∷ frontier) b s = refl
      beam_loop-same layer (suc rounds) (current ∷ frontier) b s = λ i.
          elim (leb ef (length b.best) && lt_f (worst_of b.best) current.distance) [
            | true ↦ ok (b, s)
            | false ↦ neighbors_at idx current.node layer >>= λ nbs.
                expand-same current.node nbs (record b { frontier = frontier }) s i >>= λ (b', s').
                beam_loop-same layer rounds b'.frontier b' s' i
          ]

      search_layer-same :
          (start : Candidate) (layer : ℕ) (s : S)
          → search_layer sink renamed query start ef layer admit s
            ≡ search_layer sink idx query start ef layer admit s
      unfolding search_layer
      search_layer-same start layer s = simp (beam_loop-same)

    search_inner-same :
        (k ef : ℕ) (filter : Option Filter) (s : S)
        → search_inner sink renamed query k ef filter s ≡ search_inner sink idx query k ef filter s
    unfolding search_inner dist_to_node node_at admits
    search_inner-same k ef filter s = λ i.
        if k == 0
        then err invalid_k
        else if not (length query == idx.dim)
        then err (dimension_mismatch idx.dim (length query))
        else elim idx.entry_point [
          | none ↦ ok ([], s)
          | some entry ↦
              if idx.live_count == 0
              then ok ([], s)
              else (dist_to_node idx query entry >>= λ ep_dist.
                  descend-same 1 idx.max_layer (entry, ep_dist)
                    (sink.entry entry ep_dist (sink.distance_eval s)) i
                  >>= λ ((ep, d), s₂).
                      search_layer-same (max ef k) (admits idx filter)
                        (record { distance = d; node = ep }) 0 s₂ i
                      >>= λ (found, s₃).
                          to_results-same (take k found) i >>= λ results. ok (results, s₃))
        ]

  -- The approximate search.
  pub search_filtered_with_ef-same :
      (query : List F32) (k ef : ℕ) (filter : Option Filter)
      → search_filtered_with_ef renamed query k ef filter
        ≡ search_filtered_with_ef idx query k ef filter
  unfolding search_filtered_with_ef
  search_filtered_with_ef-same query k ef filter =
      λ i. search_inner-same noop_sink query k ef filter tt i >>= λ (results, s). ok results

  scan_exact-same :
      (query : List F32) (filter : Option Filter) (k pos : ℕ) (nodes : List Node)
      (best : List Candidate)
      → scan_exact renamed query filter k pos nodes best
        ≡ scan_exact idx query filter k pos nodes best
  unfolding scan_exact dist_to_node node_at
  scan_exact-same query filter k pos [] best = refl
  scan_exact-same query filter k pos (node ∷ nodes) best = λ i.
      elim (not node.deleted && selects filter node.payload) [
        | false ↦ scan_exact-same query filter k (suc pos) nodes best i
        | true ↦ dist_to_node idx query pos >>= λ d.
            keep_exact k best (record { distance = d; node = pos }) >>= λ best'.
            scan_exact-same query filter k (suc pos) nodes best' i
      ]

  -- The exact search.
  pub search_exact-same :
      (query : List F32) (k : ℕ) (filter : Option Filter)
      → search_exact renamed query k filter ≡ search_exact idx query k filter
  unfolding search_exact
  search_exact-same query k filter = λ i.
      if k == 0
      then err invalid_k
      else if not (length query == idx.dim)
      then err (dimension_mismatch idx.dim (length query))
      else (with_capacity ((k + 1) % (usize_max + 1)) >>= λ _.
          scan_exact-same query filter k 0 idx.nodes [] i >>= λ best. to_results-same best i)
