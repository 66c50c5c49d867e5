-- ===== src/Tests/Graph.antt =====
-- A small graph index, and the theorems of the approximate index at it.
use Prim.Native.Nat.Ordering.{lt}
use vexdb.Prelude.{
  Bool, Bool-cases, inl, inr, ◌==◌, ◌⊎◌, ◌<◌, suc, zero, length, get_elem?, All, arith, ℕ, false,
  none, some, List, [], ◌∷◌, ◌≡◌, refl,
}
use vexdb.Collections.Dict
use vexdb.Collections.Dict.{nat_eq}
use vexdb.Error.{VectorId, ok, ◌>>=◌}
use vexdb.Vector
use vexdb.Index.{SearchResult}
use vexdb.Distance.Metric
use vexdb.Distance.Metric.{l2, measure}
use vexdb.Collections.Heap
use vexdb.Hnsw.{
  contains, Candidate, HnswIndex, Node, default_config, node_at, neighbors_at, dist_to_node,
  cmp_candidate,
}
use vexdb.Hnsw.Trace.{RecordingSink, recording_sink, recording_start}
use vexdb.Hnsw.Greedy.{greedy_closest}
use vexdb.Hnsw.Layer.{admit_best, evaluate, expand, beam_loop, search_layer}
use vexdb.Hnsw.Search.{
  descend, admits, to_results, search_inner, search_filtered_with_ef, search_traced, to_trace,
}
use vexdb.Hnsw.Insert.{select_neighbors, remove}
use vexdb.Hnsw.Graph.{HasLayer, IsSized, IsLinked, Stands}
use vexdb.Hnsw.Descent.{greedy_closest-ok}
use vexdb.Hnsw.Tombstones.{IsMapped, IsRemoved, live_nodes, remove-IsRemoved}
use vexdb.Hnsw.Selection.{Selects, Inside, select_neighbors-ok}
use vexdb.Hnsw.Observation.{search_traced-search_filtered_with_ef}
use vexdb.Tests.Numbers.{numbers, numbers-FloatOrder}

abbrev pub node_of : ℕ → ℕ → ℕ → Node
node_of id x nb = record {
  id = id;
  vector = Vector.from_vec (x ∷ []);
  neighbors = (nb ∷ []) ∷ [];
  deleted = false;
  payload = none;
}

-- Two linked nodes on one layer.
abbrev pub pair : HnswIndex
pair = record {
  config = default_config;
  metric = l2;
  dim = 1;
  nodes = node_of 7 3 1 ∷ node_of 9 5 0 ∷ [];
  id_to_pos = (7, 0) ∷ (9, 1) ∷ [];
  entry_point = some 0;
  max_layer = 0;
  live_count = 2;
  rng_state = 0;
}

abbrev pub found : List SearchResult
found = record { id = 9; distance = 1 } ∷ []

pub pair_found : search_filtered_with_ef pair (6 ∷ []) 1 4 none ≡ ok found
unfolding search_filtered_with_ef search_inner dist_to_node node_at Metric.distance descend
    search_layer admits beam_loop neighbors_at expand evaluate Heap.push admit_best cmp_candidate
    to_results
pair_found = refl

search_traced-search_filtered_with_ef_example :
    (sink : RecordingSink) × (search_inner recording_sink pair (6 ∷ []) 1 4 none recording_start
      ≡ ok (found, sink))
    × (search_traced pair (6 ∷ []) 1 4 none ≡ (to_trace pair sink >>= λ trace. ok (found, trace)))
search_traced-search_filtered_with_ef_example =
    search_traced-search_filtered_with_ef pair (6 ∷ []) 1 4 none pair_found

pair_sized :
    (n : ℕ) (node : Node) → get_elem? pair.nodes n ≡ some node → length node.vector.values ≡ 1
pair_sized zero node h = ground (arith, h)
pair_sized (suc zero) node h = ground (arith, h)
pair_sized (suc (suc n)) node h = cc

pub pair-IsSized : IsSized pair
pair-IsSized = record { sized = pair_sized }

abbrev candidates : List Candidate
candidates = record { distance = 1; node = 1 } ∷ record { distance = 3; node = 0 } ∷ []

select_neighbors-ok_example :
    Selects (Inside pair pair-IsSized) (select_neighbors pair candidates 1) 1
select_neighbors-ok_example =
    select_neighbors-ok pair pair-IsSized candidates 1 (omega arith, (omega arith, tt))

pub on_layer : (n : ℕ) → n < 2 → HasLayer pair 0 n
on_layer zero h = record { node = node_of 7 3 1; list = 1 ∷ []; at = refl; listed = refl }
on_layer (suc zero) h = record { node = node_of 9 5 0; list = 0 ∷ []; at = refl; listed = refl }
on_layer (suc (suc n)) h = absurd (omega arith)

pair_linked :
    (n : ℕ) (node : Node) (list : List ℕ)
    → get_elem? pair.nodes n ≡ some node
    → get_elem? node.neighbors 0 ≡ some list
    → All (HasLayer pair 0) list
pair_linked zero node list at listed =
    let same : (1 ∷ []) ≡ list = ground (arith, at, listed) in
    let known : All (HasLayer pair 0) (1 ∷ []) = (on_layer 1 (omega arith), tt) in rw (← same) known
pair_linked (suc zero) node list at listed =
    let same : (0 ∷ []) ≡ list = ground (arith, at, listed) in
    let known : All (HasLayer pair 0) (0 ∷ []) = (on_layer 0 (omega arith), tt) in rw (← same) known
pair_linked (suc (suc n)) node list at listed = cc

pub pair-IsLinked : IsLinked pair 0
pair-IsLinked = record { linked = pair_linked }

-- The distance of node 0 from the query.
abbrev pub first_far : ℕ
first_far = measure l2 (6 ∷ []) (3 ∷ [])

pub pair-Stands : Stands pair 0 (6 ∷ []) 0 first_far
pair-Stands = record {
  there = record { node = node_of 7 3 1; list = 1 ∷ []; at = refl; listed = refl };
  measured = refl;
}

greedy_closest-ok_example :
    (ep' : ℕ) × (d' : ℕ) × (s' : RecordingSink) × (greedy_closest recording_sink pair
        (6 ∷ [])
        0
        first_far
        0
        recording_start
      ≡ ok ((ep', d'), s'))
    × Stands pair 0 (6 ∷ []) ep' d'
    × ((d' ≡ first_far) ⊎ (numbers.total_cmp d' first_far ≡ lt))
greedy_closest-ok_example =
    greedy_closest-ok numbers-FloatOrder pair pair-IsSized 0 pair-IsLinked (6 ∷ []) refl
      recording_sink 0 first_far recording_start pair-Stands

pair_found_at :
    (id : VectorId) (pos : ℕ)
    → Dict.get pair.id_to_pos id ≡ some pos
    → (node : Node) × (get_elem? pair.nodes pos ≡ some node) × (node.id ≡ id)
unfolding Dict.get
pair_found_at id pos h = elim (Bool-cases (7 == id)) [
  | inl e ↦ (node_of 7 3 1, ground (arith, h, e), ground arith)
  | inr ne ↦ (node_of 9 5 0, ground (arith, h, ne), ground (arith, h, ne))
]

pair-IsMapped : IsMapped pair
unfolding live_nodes
pair-IsMapped = record { found = pair_found_at; counted = refl }

remove-IsRemoved_example :
    (idx' : HnswIndex) × (removed : Bool) × (remove pair 7 ≡ ok (idx', removed))
    × (contains pair 7 ≡ ok removed)
    × IsRemoved pair 7 idx'
remove-IsRemoved_example = remove-IsRemoved pair pair-IsMapped 7
