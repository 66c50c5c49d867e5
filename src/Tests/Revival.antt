-- ===== src/Tests/Revival.antt =====
-- The snapshot of a small graph index that its operations built.
use vexdb.Prelude.{ℕ, Bool, true, false, none, some, List, [], ◌∷◌, ◌++◌, ◌≡◌, refl, arith}
use vexdb.Error.{ok}
use vexdb.Vector
use vexdb.Vector.{Vector}
use vexdb.Distance.Metric.{l2}
use vexdb.Hnsw.{
  has_room, HnswIndex, HnswConfig, Node, new, node_at, neighbors_at, dist_to_node, cmp_candidate,
}
use vexdb.Collections.Dict
use vexdb.Collections.Dict.{nat_eq}
use vexdb.Collections.Heap
use vexdb.Hnsw.Layer.{admit_best, evaluate, expand, beam_loop, search_layer}
use vexdb.Hnsw.Greedy.{greedy_closest, climb, climb_round}
use vexdb.Hnsw.Insert.{
  add_with_payload, remove, is_taken, push_node, connect, link_layers, link_layer, link_all,
  link_back, set_neighbors, select_neighbors, select_loop, backfill, dominated,
}
use vexdb.Hnsw.Search.{descend}
use vexdb.Distance.Metric
use vexdb.Hnsw.Level.{sample_level, level_of, next_state, mix}
use vexdb.Hnsw.Built.{IsUsable, Built, Built-IsIndex}
use vexdb.Hnsw.Built.Built.{empty, added, removed}
use vexdb.Hnsw.Ledger.{IsLedger, Built-IsLedger}
use vexdb.Persist.HnswRoundTrip.{IsStorable}
use vexdb.Persist.NodeValues.{IsStorableNode}
use vexdb.Persist.Revival.{IsRevived, read_any-IsRevived}
use vexdb.Persist.Format
use vexdb.Persist.Format.{to_le_bytes}
use vexdb.Distance.Tags.{to_tag}
use vexdb.Persist.Write.{
  write_hnsw, write_nodes, write_layers, write_u32s, write_hnsw_head, put_payload, put_f32_slice,
  write_header,
}
use vexdb.Hnsw.Insertion.{IsIndex}
use vexdb.Persist.Any.{hnsw, read_any, write_to}
use vexdb.Tests.Bits.{bits, bits-FloatBits, bits_back, bits-UsizeWidth, bits-FloatOrder}

abbrev config : HnswConfig
config = record { m = 2; ef_construction = 3; ef_search = 3; seed = 1 }

abbrev nothing : HnswIndex
nothing = new 1 l2 config

abbrev vector : Bool → Vector
vector x = Vector.from_vec (x ∷ [])

abbrev one : HnswIndex
one = record nothing {
  nodes =
      record {
        id = 7;
        vector = vector true;
        neighbors = [] ∷ [];
        deleted = false;
        payload = some true;
      }
      ∷ [];
  id_to_pos = (7, 0) ∷ [];
  entry_point = some 0;
  live_count = 1;
  rng_state = 11_400_714_819_323_198_486;
}

abbrev second : Node
second = record {
  id = 9;
  vector = vector false;
  neighbors = (0 ∷ []) ∷ [];
  deleted = false;
  payload = none;
}

abbrev first : Bool → Node
first gone = record {
  id = 7;
  vector = vector true;
  neighbors = (1 ∷ []) ∷ [];
  deleted = gone;
  payload = some true;
}

abbrev two : HnswIndex
two = record one {
  nodes = first false ∷ second ∷ [];
  id_to_pos = (7, 0) ∷ (9, 1) ∷ [];
  live_count = 2;
  rng_state = 4_354_685_564_936_845_355;
}

abbrev three : HnswIndex
three = record two { nodes = first true ∷ second ∷ []; live_count = 1 }

first_run : add_with_payload nothing 7 (vector true) (some true) ≡ ok one
unfolding add_with_payload new is_taken Dict.get push_node sample_level level_of Dict.insert
    next_state
first_run = refl

second_run : add_with_payload one 9 (vector false) none ≡ ok two
unfolding add_with_payload is_taken sample_level level_of push_node Dict.get Dict.insert connect
    dist_to_node node_at neighbors_at Metric.distance descend link_layers link_layer link_all
    link_back set_neighbors select_neighbors select_loop backfill search_layer beam_loop evaluate
    expand Heap.push admit_best cmp_candidate new dominated greedy_closest climb climb_round mix
    next_state has_room
second_run = refl

third_run : remove two 7 ≡ ok (three, true)
unfolding remove Dict.get node_at
third_run = refl

config-IsUsable : IsUsable config
unfolding level_of
config-IsUsable = record { positive = omega arith; levels = λ state. omega arith }

three-Built : Built 1 l2 config three
three-Built =
    removed 7 true
      (added 9 (vector false) none (added 7 (vector true) (some true) empty first_run) second_run)
      third_run

first-IsStorableNode : IsStorableNode 1 2 (first true)
first-IsStorableNode = record {
  id_bound = omega arith;
  sized = refl;
  some_layer = omega arith;
  few_layers = omega arith;
  linked = omega arith;
  payload = bits_back _;
}

second-IsStorableNode : IsStorableNode 1 2 second
second-IsStorableNode = record {
  id_bound = omega arith;
  sized = refl;
  some_layer = omega arith;
  few_layers = omega arith;
  linked = omega arith;
  payload = bits_back _;
}

three-IsStorable : IsStorable three
unfolding new
three-IsStorable = record {
  dim_pos = omega arith;
  dim_max = omega arith;
  dim_usize = omega arith;
  m_pos = omega arith;
  m_max = omega arith;
  m_usize = omega arith;
  ef_construction_usize = omega arith;
  ef_search_usize = omega arith;
  seed_word = omega arith;
  rng_state_word = omega arith;
  max_layer_usize = omega arith;
  few_layers = omega arith;
  live_count_usize = omega arith;
  arena = omega arith;
  entered = λ ep h. ground (arith, h);
  nodes = (first-IsStorableNode, (second-IsStorableNode, tt));
}

Built-IsLedger_example : IsLedger three
Built-IsLedger_example = Built-IsLedger bits-FloatOrder 1 l2 config config-IsUsable three-Built

-- The bytes that `write_hnsw` writes for it.
abbrev three_bytes : List ℕ
three_bytes =
    86 ∷ 69 ∷ 88 ∷ 83 ∷ 78 ∷ 65 ∷ 80 ∷ 0 ∷ 1 ∷ 0 ∷ 0 ∷ 0 ∷ 1 ∷ 1 ∷ 0 ∷ 0 ∷ 1 ∷ 0 ∷ 0 ∷ 0 ∷ 0 ∷ 0 ∷ 0
    ∷ 0 ∷ 2 ∷ 0 ∷ 0 ∷ 0 ∷ 0 ∷ 0 ∷ 0 ∷ 0 ∷ 3 ∷ 0 ∷ 0 ∷ 0 ∷ 0 ∷ 0 ∷ 0 ∷ 0 ∷ 3 ∷ 0 ∷ 0 ∷ 0 ∷ 0 ∷ 0 ∷ 0
    ∷ 0 ∷ 1 ∷ 0 ∷ 0 ∷ 0 ∷ 0 ∷ 0 ∷ 0 ∷ 0 ∷ 43 ∷ 248 ∷ 148 ∷ 254 ∷ 114 ∷ 243 ∷ 110 ∷ 60 ∷ 0 ∷ 0 ∷ 0
    ∷ 0 ∷ 0 ∷ 0 ∷ 0 ∷ 0 ∷ 0 ∷ 0 ∷ 0 ∷ 0 ∷ 0 ∷ 0 ∷ 0 ∷ 0 ∷ 1 ∷ 0 ∷ 0 ∷ 0 ∷ 0 ∷ 0 ∷ 0 ∷ 0 ∷ 2 ∷ 0 ∷ 0
    ∷ 0 ∷ 0 ∷ 0 ∷ 0 ∷ 0 ∷ 7 ∷ 0 ∷ 0 ∷ 0 ∷ 0 ∷ 0 ∷ 0 ∷ 0 ∷ 1 ∷ 1 ∷ 0 ∷ 0 ∷ 0 ∷ 1 ∷ 0 ∷ 0 ∷ 0 ∷ 1 ∷ 0
    ∷ 0 ∷ 0 ∷ 1 ∷ 0 ∷ 0 ∷ 0 ∷ 49 ∷ 0 ∷ 0 ∷ 128 ∷ 63 ∷ 9 ∷ 0 ∷ 0 ∷ 0 ∷ 0 ∷ 0 ∷ 0 ∷ 0 ∷ 0 ∷ 1 ∷ 0 ∷ 0
    ∷ 0 ∷ 1 ∷ 0 ∷ 0 ∷ 0 ∷ 0 ∷ 0 ∷ 0 ∷ 0 ∷ 0 ∷ 0 ∷ 0 ∷ 0 ∷ 0 ∷ 0 ∷ 0 ∷ 0 ∷ []

three_written : write_to (hnsw three) ≡ Format.ok three_bytes
unfolding write_hnsw write_nodes write_layers write_u32s write_hnsw_head put_payload put_f32_slice
    write_header to_le_bytes to_tag new
three_written = refl

three-IsIndex : IsIndex three
three-IsIndex = (Built-IsIndex bits-FloatOrder 1 l2 config config-IsUsable three-Built).0

three-IsLedger : IsLedger three
three-IsLedger = Built-IsLedger bits-FloatOrder 1 l2 config config-IsUsable three-Built

read_any-IsRevived_example :
    (idx' : HnswIndex) × (read_any (three_bytes ++ []) ≡ Format.ok (hnsw idx', []))
    × IsRevived three idx'
read_any-IsRevived_example =
    read_any-IsRevived bits-FloatBits bits-UsizeWidth three three-IsIndex three-IsLedger
      three-IsStorable three_bytes three_written []
