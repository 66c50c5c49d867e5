-- ===== src/Tests/Built.antt =====
-- A graph index that is built by its operations.
use vexdb.Prelude.{◌+◌, ◌%◌, ◌⊎◌, ℕ, Bool, true, false, none, some, List, [], ◌∷◌, ◌≡◌, refl, arith}
use vexdb.Error.{panic, ok}
use vexdb.Index.{SearchResult}
use vexdb.Vector
use vexdb.Vector.{Vector}
use vexdb.Distance.Metric.{l2}
use vexdb.Collections.Dict
use vexdb.Collections.Dict.{nat_eq}
use vexdb.Collections.Heap
use vexdb.Distance.Metric
use vexdb.Hnsw.Layer.{admit_best, evaluate, expand, beam_loop, search_layer}
use vexdb.Hnsw.{
  has_room, HnswIndex, Node, new, default_config, node_at, neighbors_at, dist_to_node,
  cmp_candidate,
}
use vexdb.Hnsw.Greedy.{greedy_closest, climb, climb_round}
use vexdb.Hnsw.Level.{sample_level, level_of, next_state, mix}
use vexdb.Hnsw.Insert.{
  add_with_payload, remove, is_taken, push_node, connect, link_layers, link_layer, link_all,
  link_back, set_neighbors, select_neighbors, select_loop, backfill, dominated,
}
use vexdb.Hnsw.Grown.{Inserts}
use vexdb.Hnsw.Growth.{add_with_payload-IsIndex}
use vexdb.Hnsw.Insertion.{IsIndex}
use vexdb.Hnsw.Search.{descend, search_filtered_with_ef, search_exact}
use vexdb.Hnsw.Answer.{IsAnswer, IsNearest}
use vexdb.Hnsw.Built.{IsUsable, Built, Built-IsIndex}
use vexdb.Hnsw.Built.Built.{empty, added, removed}
use vexdb.Hnsw.Stored.{IsStored, add_with_payload-IsStored}
use vexdb.Hnsw.Service.{Built-answers}
use vexdb.Tests.Numbers.{numbers, numbers-FloatOrder}

default_config-IsUsable : IsUsable default_config
unfolding level_of
default_config-IsUsable = record { positive = omega arith; levels = λ state. omega arith }

abbrev none_yet : HnswIndex
none_yet = new 1 l2 default_config

abbrev vector : ℕ → Vector
vector x = Vector.from_vec (x ∷ [])

abbrev node_of : ℕ → ℕ → List ℕ → Bool → Node
node_of id x links gone = record {
  id = id;
  vector = vector x;
  neighbors = links ∷ links ∷ [];
  deleted = gone;
  payload = none;
}

abbrev one : HnswIndex
one = record none_yet {
  nodes = node_of 7 3 [] false ∷ [];
  id_to_pos = (7, 0) ∷ [];
  entry_point = some 0;
  max_layer = 1;
  live_count = 1;
  rng_state = next_state none_yet.rng_state;
}

abbrev two : HnswIndex
two = record one {
  nodes = node_of 7 3 (1 ∷ []) false ∷ node_of 9 5 (0 ∷ []) false ∷ [];
  id_to_pos = (7, 0) ∷ (9, 1) ∷ [];
  live_count = 2;
  rng_state = next_state one.rng_state;
}

abbrev three : HnswIndex
three = record two {
  nodes = node_of 7 3 (1 ∷ []) true ∷ node_of 9 5 (0 ∷ []) false ∷ [];
  live_count = 1;
}

first_run : add_with_payload none_yet 7 (vector 3) none ≡ ok one
unfolding add_with_payload is_taken sample_level level_of push_node new Dict.get Dict.insert mix
    next_state
first_run = refl

second_run : add_with_payload one 9 (vector 5) none ≡ ok two
unfolding add_with_payload is_taken sample_level level_of push_node Dict.get Dict.insert connect
    dist_to_node node_at neighbors_at Metric.distance descend link_layers link_layer link_all
    link_back set_neighbors select_neighbors select_loop backfill search_layer beam_loop evaluate
    expand Heap.push admit_best cmp_candidate new dominated greedy_closest climb climb_round mix
    next_state has_room
second_run = refl

third_run : remove two 7 ≡ ok (three, true)
unfolding remove node_at Dict.get
third_run = refl

three-Built : Built 1 l2 default_config three
three-Built =
    removed 7 true (added 9 (vector 5) none (added 7 (vector 3) none empty first_run) second_run)
      third_run

Built-IsIndex_example : IsIndex three × (three.config ≡ default_config) × (three.dim ≡ 1)
Built-IsIndex_example =
    Built-IsIndex numbers-FloatOrder 1 l2 default_config default_config-IsUsable three-Built

Built-answers_example :
    ((approximate : List SearchResult) × (search_filtered_with_ef three (6 ∷ []) 2 4 none
        ≡ ok approximate)
      × IsAnswer three (6 ∷ []) 2 none approximate)
    × (((has_room ((2 + 1) % (numbers.usize_max + 1)) ≡ false)
          × (search_exact three (6 ∷ []) 2 none ≡ panic))
        ⊎ ((exact : List SearchResult) × (search_exact three (6 ∷ []) 2 none ≡ ok exact)
            × IsNearest three (6 ∷ []) 2 none exact))
Built-answers_example =
    Built-answers numbers-FloatOrder 1 l2 default_config default_config-IsUsable three three-Built
      (6 ∷ []) refl 2 4 none (omega arith)

three-IsIndex : IsIndex three
three-IsIndex =
    (Built-IsIndex numbers-FloatOrder 1 l2 default_config default_config-IsUsable three-Built).0

add_with_payload-IsIndex_example :
    Inserts three 7 (vector 8) none (add_with_payload three 7 (vector 8) none)
unfolding sample_level level_of new has_room
add_with_payload-IsIndex_example =
    add_with_payload-IsIndex three three-IsIndex 7 numbers-FloatOrder (vector 8) none refl
      (omega arith) refl (omega arith) (omega arith)

add_with_payload-IsStored_example : IsStored one 9 (vector 5) none two
add_with_payload-IsStored_example =
    add_with_payload-IsStored numbers-FloatOrder 1 l2 default_config default_config-IsUsable one two
      (added 7 (vector 3) none empty first_run) 9 (vector 5) none second_run
