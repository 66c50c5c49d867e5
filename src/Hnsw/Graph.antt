-- ===== src/Hnsw/Graph.antt =====
-- When the graph of an index is well formed, layer by layer.
use vexdb.Prelude.{ℕ, ◌≤◌, ◌<◌, some, List, ◌≡◌, arith, length, get_elem?, All}
use vexdb.Platform.{Platform}
use vexdb.Error.{ok}
use vexdb.Distance.Metric.{DistanceMetric, distance, measure}
use vexdb.Collections.Vec.{get_elem?_of_lt, lt_of_get_elem?}
use vexdb.Hnsw.{HnswIndex, Node, node_at, neighbors_at, dist_to_node}

module _ ⦃p : Platform⦄ where
  open p use {F32}

  -- Every vector of the arena has the dimension of the index.
  pub record IsSized (idx : HnswIndex) : Type 0 where
    pub sized :
        (n : ℕ) (node : Node)
        → get_elem? idx.nodes n ≡ some node
        → length node.vector.values ≡ idx.dim

  -- The node is in the arena, and has a list of neighbours for the layer.
  pub record HasLayer (idx : HnswIndex) (layer n : ℕ) : Type 0 where
    pub node : Node
    pub list : List ℕ
    pub at : get_elem? idx.nodes n ≡ some node
    pub listed : get_elem? node.neighbors layer ≡ some list

  -- The links of a layer lead to nodes of the layer.
  pub record IsLinked (idx : HnswIndex) (layer : ℕ) : Type 0 where
    pub linked :
        (n : ℕ) (node : Node) (list : List ℕ)
        → get_elem? idx.nodes n ≡ some node
        → get_elem? node.neighbors layer ≡ some list
        → All (HasLayer idx layer) list

  -- The graph of an index: vectors of its dimension, links that stay on their layers, and an entry point
  -- on every layer up to the highest.
  pub record IsGraph (idx : HnswIndex) : Type 0 where
    pub vectors : IsSized idx
    pub links : (layer : ℕ) → IsLinked idx layer
    pub entry :
        (ep layer : ℕ) → idx.entry_point ≡ some ep → layer ≤ idx.max_layer → HasLayer idx layer ep

  abbrev pub far : DistanceMetric → List F32 → Node → F32
  far metric query node = measure metric query node.vector.values

  -- A node of the layer, with its distance.
  pub record Stands (idx : HnswIndex) (layer : ℕ) (query : List F32) (n : ℕ) (d : F32)
      : Type 0 where
    pub there : HasLayer idx layer n
    pub measured : d ≡ far idx.metric query there.node

  -- A node is on the layers below its own.
  pub HasLayer-lower :
      (idx : HnswIndex) {high : ℕ} (low n : ℕ)
      → low ≤ high
      → HasLayer idx high n
      → HasLayer idx low n
  HasLayer-lower idx {high = high} low n le above =
      let inside = lt_of_get_elem? above.node.neighbors high above.listed in
      let (list, listed) = get_elem?_of_lt above.node.neighbors low (omega (arith, inside, le)) in
      record { node = above.node; list = list; at = above.at; listed = listed }

  -- A node that is on two layers has one vector.
  pub Stands-lower :
      (idx : HnswIndex) (high low : ℕ) (query : List F32) (n : ℕ) (d : F32)
      → HasLayer idx low n
      → Stands idx high query n d
      → Stands idx low query n d
  Stands-lower idx high low query n d lower s =
      let same : s.there.node ≡ lower.node = ground (arith, s.there.at, lower.at) in
      record { there = lower; measured = rw (← same) s.measured }

  pub neighbors_at-list :
      (idx : HnswIndex) {layer : ℕ} (n : ℕ) (there : HasLayer idx layer n)
      → neighbors_at idx n layer ≡ ok there.list
  unfolding neighbors_at node_at
  neighbors_at-list idx n there = simp (there.at, there.listed)

  pub dist_to_node-far :
      (idx : HnswIndex)
      → IsSized idx
      → (query : List F32) → length query ≡ idx.dim
      → (n : ℕ) (node : Node) → get_elem? idx.nodes n ≡ some node
      → dist_to_node idx query n ≡ ok (far idx.metric query node)
  unfolding dist_to_node node_at distance
  dist_to_node-far idx w query fits n node at = ground (arith, at, w.sized n node at)

  pub HasLayer-lt :
      (idx : HnswIndex) {layer : ℕ} (n : ℕ) → HasLayer idx layer n → n < length idx.nodes
  HasLayer-lt idx n on_layer = lt_of_get_elem? idx.nodes n on_layer.at

  -- The nodes that the links of a layer lead to from a node.
  pub data Reaches (idx : HnswIndex) (layer start : ℕ) : ℕ → Type 0 where
    here : Reaches idx layer start start
    along :
        {mid end : ℕ} (list : List ℕ) (i : ℕ)
        → Reaches idx layer start mid
        → neighbors_at idx mid layer ≡ ok list
        → get_elem? list i ≡ some end
        → Reaches idx layer start end
