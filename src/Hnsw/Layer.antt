-- ===== src/Hnsw/Layer.antt =====
-- `HnswIndex::search_layer`: beam search on one layer.
use vexdb.Prelude.{
  ℕ, zero, suc, Bool, true, false, ◌&&◌, ◌||◌, none, some, List, [], ◌∷◌, length, get_elem?, set,
  replicate, ltb, leb, if◌then◌else◌,
}
use vexdb.Platform.{Platform}
use vexdb.Error.{Outcome, ok, stuck, ◌>>=◌, expect}
use vexdb.Collections.Heap.{push, peek, pop}
use vexdb.Hnsw.{HnswIndex, Candidate, cmp_candidate, dist_to_node, neighbors_at}
use vexdb.Hnsw.Trace.{TraceSink, admitted, routed, rejected}

-- `visited` has a flag for each node. `frontier` is the heap of `Reverse` candidates, nearest
-- first, and `best` the max-heap of results.
pub record Beam ⦃p : Platform⦄ : Type 0 where
  pub visited : List Bool
  pub frontier : List Candidate
  pub best : List Candidate

module _ ⦃p : Platform⦄ where
  open p use {F32, lt_f, inf_f}

  -- `best.peek().map_or(f32::INFINITY, |w| w.distance)`
  abbrev pub worst_of : List Candidate → F32
  worst_of best = elim (peek best) [ none ↦ inf_f | some w ↦ w.distance ]

  -- The state after `visited[n] = true`.
  abbrev pub visit : Beam → ℕ → Beam
  visit b n = record b { visited = set b.visited n true }

  -- Pushes an admitted candidate, and pops the worst one if there are more than `ef`.
  unfoldable pub admit_best : ℕ → List Candidate → Candidate → List Candidate
  admit_best ef best c =
      let pushed = push cmp_candidate c best in
      if ltb ef (length pushed) then pop pushed else pushed

  module _ {S : Type 0} (sink : TraceSink S) where
    -- What is done with the unvisited neighbour `nb` of `from`, at distance `d`.
    unfoldable pub evaluate : ℕ → (ℕ → Outcome Bool) → ℕ → ℕ → F32 → Beam → S → Outcome (Beam × S)
    evaluate ef admit from nb d b s =
        let c : Candidate = record { distance = d; node = nb } in
        let frontier = push cmp_candidate c b.frontier in
        if ltb (length b.best) ef || lt_f d (worst_of b.best)
        then (do
          ad ← admit nb
          if ad
              then ok (
                record b { frontier = frontier; best = admit_best ef b.best c },
                sink.beam_edge from nb d admitted s,
              )
              else ok (record b { frontier = frontier }, sink.beam_edge from nb d routed s))
        else ok (b, sink.beam_edge from nb d rejected s)

    -- The loop over the neighbours of the node `from`.
    unfoldable pub expand :
        HnswIndex → List F32 → ℕ → (ℕ → Outcome Bool) → ℕ → List ℕ → Beam → S → Outcome (Beam × S)
    expand idx query ef admit from [] b s = ok (b, s)
    expand idx query ef admit from (nb ∷ nbs) b s = do
      seen ← expect (get_elem? b.visited nb)
      elim seen [
        | true ↦ expand idx query ef admit from nbs b s
        | false ↦ do
          d ← dist_to_node idx query nb
          (b', s') ← evaluate ef admit from nb d (visit b nb) (sink.distance_eval s)
          expand idx query ef admit from nbs b' s'
      ]

    -- The `while let` over the frontier.
    unfoldable pub beam_loop :
        ℕ
        → HnswIndex
        → List F32
        → ℕ
        → ℕ
        → (ℕ → Outcome Bool)
        → List Candidate
        → Beam
        → S
        → Outcome (Beam × S)
    beam_loop rounds idx query ef layer admit [] b s = ok (b, s)
    beam_loop zero idx query ef layer admit (current ∷ frontier) b s = stuck
    beam_loop (suc rounds) idx query ef layer admit (current ∷ frontier) b s =
        elim (leb ef (length b.best) && lt_f (worst_of b.best) current.distance) [
          | true ↦ ok (b, s)
          | false ↦ do
            nbs ← neighbors_at idx current.node layer
            (b', s') ←
                expand idx query ef admit current.node nbs (record b { frontier = frontier }) s
            beam_loop rounds idx query ef layer admit b'.frontier b' s'
        ]

    -- Every node enters the frontier at most once, so a round for each is enough.
    unfoldable pub search_layer :
        HnswIndex
        → List F32
        → Candidate
        → ℕ
        → ℕ
        → (ℕ → Outcome Bool)
        → S
        → Outcome (List Candidate × S)
    search_layer idx query start ef layer admit s = do
      let fresh = replicate (length idx.nodes) false
      _ ← expect (get_elem? fresh start.node)
      ad ← admit start.node
      let b : Beam = record {
        visited = set fresh start.node true;
        frontier = start ∷ [];
        best = if ad then start ∷ [] else [];
      }
      (b', s') ← beam_loop (suc (length idx.nodes)) idx query ef layer admit b.frontier b s
      ok (b'.best, s')
