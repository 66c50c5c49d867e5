-- ===== src/Tests/Bindings.antt =====
-- The theorems of the bindings at small indexes.
use vexdb.Prelude.{ℕ, ◌*◌, none, some, List, [], ◌∷◌, ◌≡◌, refl, length, get_elem?, take, drop}
use vexdb.Error
use vexdb.Distance.Metric
use vexdb.Collections.Dict
use vexdb.Collections.Heap
use vexdb.Hnsw
use vexdb.Hnsw.{node_at, neighbors_at, dist_to_node, cmp_candidate}
use vexdb.Hnsw.Layer.{admit_best, evaluate, expand, beam_loop, search_layer}
use vexdb.Hnsw.Search.{descend, admits, to_results, search_inner, search_filtered_with_ef}
use vexdb.Persist.Any
use vexdb.Persist.Any.{flat, hnsw}
use vexdb.Attempt.{ok, err}
use vexdb.Wasm.{
  Hit, Inner, Texts, engine, search, search_trace, to_hits, parse_filter, export_ids,
  export_vectors, vector_of,
}
use vexdb.Wasm.Export.{flat-IsReadable, export_vectors-export_ids}
use vexdb.Wasm.Trace.{Traces, search_trace-search, search_trace_err}
use vexdb.Tests.Numbers.{numbers}
use vexdb.Tests.FlatIndex.{two, two-IsValid}
use vexdb.Tests.Graph.{pair}

abbrev flat_inner : Inner
flat_inner = record { index = flat two }

export_vectors-export_ids_example :
    (length (export_ids flat_inner) ≡ length (Any.iter_live (flat two)))
    × (length (export_vectors flat_inner) ≡ length (export_ids flat_inner) * 2)
    × ((i : ℕ) (id : ℕ)
        → get_elem? (export_ids flat_inner) i ≡ some id
        → (v : List ℕ) × (vector_of flat_inner id ≡ Error.ok (some v))
          × (take 2 (drop (i * 2) (export_vectors flat_inner)) ≡ v))
export_vectors-export_ids_example =
    export_vectors-export_ids flat_inner (flat-IsReadable two two-IsValid)

-- No text parses.
abbrev texts : Texts
texts = record { value_of = λ s. none; filter_of = λ s. none }

abbrev graph_inner : Inner
graph_inner = record { index = hnsw pair }

abbrev hits : List (Hit)
hits = record { id = 9; distance = 1; payload = none } ∷ []

searched : search texts graph_inner (6 ∷ []) 1 (some 4) none ≡ ok hits
unfolding search search_filtered_with_ef search_inner dist_to_node node_at Metric.distance descend
    search_layer admits beam_loop neighbors_at expand evaluate Heap.push admit_best cmp_candidate
    to_results to_hits Hnsw.payload Dict.get
searched = refl

refused : search texts graph_inner (6 ∷ []) 0 (some 4) none ≡ err (engine Error.invalid_k)
unfolding search search_filtered_with_ef search_inner
refused = refl

search_trace-search_example :
    Traces texts pair
      (6 ∷ [])
      1
      (some 4)
      none
      (parse_filter texts none)
      hits
      (search_trace texts graph_inner (6 ∷ []) 1 (some 4) none)
search_trace-search_example = search_trace-search texts pair (6 ∷ []) 1 (some 4) none searched

search_trace_err_example :
    search_trace texts graph_inner (6 ∷ []) 0 (some 4) none ≡ err (engine Error.invalid_k)
search_trace_err_example = search_trace_err texts pair (6 ∷ []) 0 (some 4) none refused
