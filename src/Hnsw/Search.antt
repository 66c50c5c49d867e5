-- ===== src/Hnsw/Search.antt =====
-- The searches of the graph index: `search_inner` and what is built on it, and the exact scan.
use vexdb.Prelude.{
  ◌%◌, ℕ, zero, suc, ◌+◌, Bool, true, false, not, ◌&&◌, Option, none, some, List, [], ◌∷◌, length,
  take, ltb, ◌==◌, if◌then◌else◌,
}
use Prim.Native.Nat.{max}
use vexdb.Prelude.Order.{is_lt}
use mathlib.Core.Option
use vexdb.Platform.{Platform}
use vexdb.Error.{VectorId, Outcome, ok, err, panic, ◌>>=◌, invalid_k, dimension_mismatch}
use vexdb.Payload.{Filter}
use vexdb.Index.{SearchResult, selects}
use vexdb.Collections.Heap.{push, peek, pop}
use vexdb.Hnsw.{HnswIndex, Node, Candidate, cmp_candidate, node_at, dist_to_node, with_capacity}
use vexdb.Hnsw.Trace.{
  TraceSink, RecordingSink, SearchTrace, DescentHop, BeamEdge, noop_sink, recording_sink,
  recording_start,
}
use vexdb.Hnsw.Greedy.{greedy_closest}
use vexdb.Hnsw.Layer.{search_layer}

module _ ⦃p : Platform⦄ where
  open p use {F32, Value, usize_max}

  -- The greedy descent through `count` layers, the lowest of them `low`.
  unfoldable pub descend :
      {S : Type 0}
      → TraceSink S
      → HnswIndex
      → List F32
      → ℕ
      → ℕ
      → ℕ × F32
      → S
      → Outcome ((ℕ × F32) × S)
  descend sink idx query low zero at s = ok (at, s)
  descend sink idx query low (suc count) (ep, ep_dist) s = do
    (at', s') ← greedy_closest sink idx query ep ep_dist (low + count) s
    descend sink idx query low count at' s'

  -- A live node that the filter selects.
  unfoldable pub admits : HnswIndex → Option Filter → ℕ → Outcome Bool
  admits idx filter n = do
    node ← node_at idx n
    ok (not node.deleted && selects filter node.payload)

  -- Ids for arena positions.
  unfoldable pub to_results : HnswIndex → List Candidate → Outcome (List SearchResult)
  to_results idx [] = ok []
  to_results idx (c ∷ cs) = do
    node ← node_at idx c.node
    rest ← to_results idx cs
    ok (record { id = node.id; distance = c.distance } ∷ rest)

  unfoldable pub search_inner :
      {S : Type 0}
      → TraceSink S
      → HnswIndex
      → List F32
      → ℕ
      → ℕ
      → Option Filter
      → S
      → Outcome (List SearchResult × S)
  search_inner sink idx query k ef filter s =
      if k == 0
      then err invalid_k
      else if not (length query == idx.dim)
      then err (dimension_mismatch idx.dim (length query))
      else elim idx.entry_point [
        | none ↦ ok ([], s)
        | some entry ↦ if idx.live_count == 0 then ok ([], s) else (do
          ep_dist ← dist_to_node idx query entry
          let s₁ = sink.entry entry ep_dist (sink.distance_eval s)
          ((ep, d), s₂) ← descend sink idx query 1 idx.max_layer (entry, ep_dist) s₁
          (found, s₃) ←
              search_layer sink idx query (record { distance = d; node = ep }) (max ef k) 0
                (admits idx filter) s₂
          results ← to_results idx (take k found)
          ok (results, s₃))
      ]

  unfoldable pub search_filtered_with_ef :
      HnswIndex → List F32 → ℕ → ℕ → Option Filter → Outcome (List SearchResult)
  search_filtered_with_ef idx query k ef filter = do
    (results, _) ← search_inner noop_sink idx query k ef filter tt
    ok results

  abbrev pub search_with_ef : HnswIndex → List F32 → ℕ → ℕ → Outcome (List SearchResult)
  search_with_ef idx query k ef = search_filtered_with_ef idx query k ef none

  abbrev pub search_filtered :
      HnswIndex → List F32 → ℕ → Option Filter → Outcome (List SearchResult)
  search_filtered idx query k filter =
      search_filtered_with_ef idx query k idx.config.ef_search filter

  -- `id_of`, which indexes the arena.
  abbrev pub id_of : HnswIndex → ℕ → Outcome VectorId
  id_of idx pos = do node ← node_at idx pos; ok node.id

  unfoldable pub name_hops : HnswIndex → List (DescentHop ℕ) → Outcome (List (DescentHop VectorId))
  name_hops idx [] = ok []
  name_hops idx (h ∷ hs) = do
    from ← id_of idx h.from
    to ← id_of idx h.to
    rest ← name_hops idx hs
    ok (record { layer = h.layer; from = from; to = to; distance = h.distance } ∷ rest)

  unfoldable pub name_edges : HnswIndex → List (BeamEdge ℕ) → Outcome (List (BeamEdge VectorId))
  name_edges idx [] = ok []
  name_edges idx (e ∷ es) = do
    from ← id_of idx e.from
    to ← id_of idx e.to
    rest ← name_edges idx es
    ok (record { from = from; to = to; distance = e.distance; status = e.status } ∷ rest)

  unfoldable pub name_entry : HnswIndex → Option (ℕ × F32) → Outcome (Option VectorId)
  name_entry idx none = ok none
  name_entry idx (some (pos, d)) = do id ← id_of idx pos; ok (some id)

  unfoldable pub to_trace : HnswIndex → RecordingSink → Outcome SearchTrace
  to_trace idx sink = do
    entry_id ← name_entry idx sink.entry
    descent ← name_hops idx sink.descent
    beam ← name_edges idx sink.beam
    ok (record {
      entry_id = entry_id;
      entry_distance = Option.map (λ e. e.1) sink.entry;
      max_layer = idx.max_layer;
      descent = descent;
      beam = beam;
      visited = length sink.beam + (elim sink.entry [ none ↦ 0 | some e ↦ 1 ]);
      distance_evals = sink.distance_evals;
    })

  unfoldable pub search_traced :
      HnswIndex → List F32 → ℕ → ℕ → Option Filter → Outcome (List SearchResult × SearchTrace)
  search_traced idx query k ef filter = do
    (results, sink) ← search_inner recording_sink idx query k ef filter recording_start
    trace ← to_trace idx sink
    ok (results, trace)

  -- One candidate of the exact scan: `best` holds at most `k`, and `k` is positive.
  unfoldable pub keep_exact : ℕ → List Candidate → Candidate → Outcome (List Candidate)
  keep_exact k best c =
      if ltb (length best) k then ok (push cmp_candidate c best) else elim (peek best) [
        | none ↦ panic
        | some top ↦
            ok (if is_lt (cmp_candidate c top) then push cmp_candidate c (pop best) else best)
      ]

  -- The scan from position `pos` on.
  unfoldable pub scan_exact :
      HnswIndex
      → List F32
      → Option Filter
      → ℕ
      → ℕ
      → List Node
      → List Candidate
      → Outcome (List Candidate)
  scan_exact idx query filter k pos [] best = ok best
  scan_exact idx query filter k pos (node ∷ nodes) best =
      elim (not node.deleted && selects filter node.payload) [
        | false ↦ scan_exact idx query filter k (suc pos) nodes best
        | true ↦ do
          d ← dist_to_node idx query pos
          best' ← keep_exact k best (record { distance = d; node = pos })
          scan_exact idx query filter k (suc pos) nodes best'
      ]

  -- At usize::MAX, `k + 1` wraps, as in a build without overflow checks.
  unfoldable pub search_exact :
      HnswIndex → List F32 → ℕ → Option Filter → Outcome (List SearchResult)
  search_exact idx query k filter =
      if k == 0
      then err invalid_k
      else if not (length query == idx.dim)
      then err (dimension_mismatch idx.dim (length query))
      else (do
        _ ← with_capacity ((k + 1) % (usize_max + 1))
        best ← scan_exact idx query filter k 0 idx.nodes []
        to_results idx best)
