-- ===== src/Hnsw.antt =====
-- crates/vex-core/src/hnsw.rs: the approximate index, a stack of proximity graphs over one arena of
-- nodes. This file has the data and the accessors; the children have the algorithms.
pub mod Trace
pub mod Greedy
pub mod Layer
pub mod Search
pub mod Level
pub mod Insert
pub mod Observation
pub mod Recorded
pub mod Tracing
pub mod Graph
pub mod CandidateOrder
pub mod Beam
pub mod Cover
pub mod BeamStep
pub mod BeamRun
pub mod Answer
pub mod SearchRun
pub mod Exact
pub mod Rewire
pub mod Push
pub mod Link
pub mod Layering
pub mod Insertion
pub mod Filed
pub mod Grown
pub mod Growth
pub mod Burial
pub mod Built
pub mod Ledger
pub mod Nameless
pub mod Service
pub mod Stored
pub mod Selection
pub mod Descent
pub mod Tombstones
pub mod Errors
pub mod SelectionErrors
pub mod Replacement
use Prim.Native.Nat.{Ordering, compare}
use vexdb.Prelude.{
  ℕ, Bool, true, false, not, Option, none, some, List, [], ◌∷◌, map, get_elem?, leb, ◌*◌, ◌/◌,
  if◌then◌else◌,
}
use vexdb.Prelude.Order.{then_with}
use vexdb.Platform.{Platform}
use vexdb.Error.{VectorId, Outcome, ok, panic, ◌>>=◌, expect, expect_ok}
use vexdb.Vector.{Vector}
use vexdb.Distance.Metric.{DistanceMetric, distance}
use vexdb.Collections.Dict
use vexdb.Collections.Dict.{nat_eq}

pub record HnswConfig : Type 0 where
  pub m : ℕ
  pub ef_construction : ℕ
  pub ef_search : ℕ
  pub seed : ℕ

-- `HnswConfig::default()`
abbrev pub default_config : HnswConfig
default_config = record {
  m = 16;
  ef_construction = 200;
  ef_search = 64;
  seed = 0x5eed_cafe_f00d_d00d;
}

-- `neighbors` has one list of arena positions for each layer of the node.
pub record Node ⦃p : Platform⦄ : Type 0 where
  pub id : VectorId
  pub vector : Vector
  pub neighbors : List (List ℕ)
  pub deleted : Bool
  pub payload : Option p.Value

pub record HnswIndex ⦃p : Platform⦄ : Type 0 where
  pub config : HnswConfig
  pub metric : DistanceMetric
  pub dim : ℕ
  pub nodes : List Node
  pub id_to_pos : List (VectorId × ℕ)
  pub entry_point : Option ℕ
  pub max_layer : ℕ
  pub live_count : ℕ
  pub rng_state : ℕ

pub record Candidate ⦃p : Platform⦄ : Type 0 where
  pub distance : p.F32
  pub node : ℕ

module _ ⦃p : Platform⦄ where
  open p use {F32, Value, total_cmp, usize_max}

  -- Room for `n` candidates of eight bytes each in no more than isize::MAX bytes.
  unfoldable pub has_room : ℕ → Bool
  has_room n = leb (n * 8) (usize_max / 2)

  -- `with_capacity(n)` of candidates, which panics where there is no room for them.
  abbrev pub with_capacity : ℕ → Outcome (Unit {0})
  with_capacity n = if has_room n then ok tt else panic

  -- By distance, then by arena position.
  unfoldable pub cmp_candidate : Candidate → Candidate → Ordering
  cmp_candidate a b = then_with (total_cmp a.distance b.distance) (compare a.node b.node)

  unfoldable pub new : ℕ → DistanceMetric → HnswConfig → HnswIndex
  new dim metric config = record {
    config = config;
    metric = metric;
    dim = dim;
    nodes = [];
    id_to_pos = [];
    entry_point = none;
    max_layer = 0;
    live_count = 0;
    rng_state = config.seed;
  }

  -- `self.nodes[n]`
  unfoldable pub node_at : HnswIndex → ℕ → Outcome Node
  node_at idx n = expect (get_elem? idx.nodes n)

  -- `self.nodes[n].neighbors[layer]`
  unfoldable pub neighbors_at : HnswIndex → ℕ → ℕ → Outcome (List ℕ)
  neighbors_at idx n layer = do node ← node_at idx n; expect (get_elem? node.neighbors layer)

  unfoldable pub dist_to_node : HnswIndex → List F32 → ℕ → Outcome F32
  dist_to_node idx query n = do
    node ← node_at idx n
    expect_ok (distance idx.metric query node.vector.values)

  unfoldable pub contains : HnswIndex → VectorId → Outcome Bool
  contains idx id = elim (Dict.get idx.id_to_pos id) [
    | none ↦ ok false
    | some pos ↦ do node ← node_at idx pos; ok (not node.deleted)
  ]

  -- `iter_live`: id, vector and payload of the live nodes, in arena order.
  unfoldable pub live_of : List Node → List (VectorId × Vector × Option Value)
  live_of [] = []
  live_of (n ∷ ns) =
      let rest = live_of ns in if n.deleted then rest else (n.id, n.vector, n.payload) ∷ rest

  unfoldable pub iter_live : HnswIndex → List (VectorId × Vector × Option Value)
  iter_live idx = live_of idx.nodes

  unfoldable pub payload : HnswIndex → VectorId → Outcome (Option Value)
  payload idx id = elim (Dict.get idx.id_to_pos id) [
    | none ↦ ok none
    | some pos ↦ do node ← node_at idx pos; ok (if node.deleted then none else node.payload)
  ]

  unfoldable pub vector : HnswIndex → VectorId → Outcome (Option Vector)
  vector idx id = elim (Dict.get idx.id_to_pos id) [
    | none ↦ ok none
    | some pos ↦ do node ← node_at idx pos; ok (if node.deleted then none else some node.vector)
  ]

  unfoldable pub len : HnswIndex → ℕ
  len idx = idx.live_count
