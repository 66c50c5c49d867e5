-- ===== src/Hnsw/Insert.antt =====
-- Insertion and removal: neighbour selection, `add_with_payload`, and the tombstones of `remove`.
use vexdb.Prelude.{
  ℕ, zero, suc, ◌+◌, ◌-◌, ◌*◌, ◌%◌, Bool, true, false, not, Option, none, some, List, [], ◌∷◌, ◌++◌,
  map, length, get_elem?, set, replicate, ltb, leb, ◌==◌, if◌then◌else◌,
}
use Prim.Native.Nat.{min}
use vexdb.Platform.{Platform}
use vexdb.Error.{VectorId, Outcome, ok, err, panic, ◌>>=◌, expect, dimension_mismatch, duplicate_id}
use vexdb.Vector
use vexdb.Vector.{Vector}
use vexdb.Collections.Heap.{sort}
use vexdb.Collections.Dict
use vexdb.Collections.Dict.{nat_eq}
use vexdb.Hnsw.{
  HnswIndex, Node, Candidate, cmp_candidate, node_at, neighbors_at, dist_to_node, with_capacity,
}
use vexdb.Hnsw.Trace.{noop_sink}
use vexdb.Hnsw.Layer.{search_layer}
use vexdb.Hnsw.Search.{descend}
use vexdb.Hnsw.Level.{sample_level}

module _ ⦃p : Platform⦄ where
  open p use {F32, Value, lt_f, usize_max}

  -- `selected.iter().any(|s| self.dist_to_node(v, s.node) < d)`
  unfoldable pub dominated : HnswIndex → List F32 → F32 → List Candidate → Outcome Bool
  dominated idx v d [] = ok false
  dominated idx v d (s ∷ selected) = do
    x ← dist_to_node idx v s.node
    elim (lt_f x d) [ true ↦ ok true | false ↦ dominated idx v d selected ]

  -- The walk over the candidates: what is selected, and what is pruned.
  unfoldable pub select_loop :
      HnswIndex → ℕ → List Candidate → List Candidate → List ℕ → Outcome (List Candidate × List ℕ)
  select_loop idx m [] selected pruned = ok (selected, pruned)
  select_loop idx m (c ∷ cs) selected pruned = elim (leb m (length selected)) [
    | true ↦ ok (selected, pruned)
    | false ↦ do
      node ← node_at idx c.node
      dom ← dominated idx node.vector.values c.distance selected
      elim dom [
        | true ↦ select_loop idx m cs selected (pruned ++ (c.node ∷ []))
        | false ↦ select_loop idx m cs (selected ++ (c ∷ [])) pruned
      ]
  ]

  -- Pruned candidates fill the slots that are left.
  unfoldable pub backfill : ℕ → List ℕ → List ℕ → List ℕ
  backfill m out [] = out
  backfill m out (n ∷ pruned) = elim (leb m (length out)) [
    | true ↦ out
    | false ↦ backfill m (out ++ (n ∷ [])) pruned
  ]

  unfoldable pub select_neighbors : HnswIndex → List Candidate → ℕ → Outcome (List ℕ)
  select_neighbors idx candidates m = do
    _ ← with_capacity m
    (selected, pruned) ← select_loop idx m candidates [] []
    ok (backfill m (map (λ c. c.node) selected) pruned)

  unfoldable pub measured : HnswIndex → List F32 → List ℕ → Outcome (List Candidate)
  measured idx base [] = ok []
  measured idx base (nb ∷ nbs) = do
    d ← dist_to_node idx base nb
    rest ← measured idx base nbs
    ok (record { distance = d; node = nb } ∷ rest)

  unfoldable pub shrink_neighbors : HnswIndex → ℕ → ℕ → ℕ → Outcome (List ℕ)
  shrink_neighbors idx node layer m_max = do
    base ← node_at idx node
    nbs ← neighbors_at idx node layer
    cands ← measured idx base.vector.values nbs
    select_neighbors idx (sort cmp_candidate cands) m_max

  -- `self.nodes[n].neighbors[layer] = list`
  unfoldable pub set_neighbors : HnswIndex → ℕ → ℕ → List ℕ → Outcome HnswIndex
  set_neighbors idx n layer list = do
    node ← node_at idx n
    _ ← expect (get_elem? node.neighbors layer)
    let node' : Node = record node { neighbors = set node.neighbors layer list }
    ok (record idx { nodes = set idx.nodes n node' })

  -- The link from one chosen neighbour back to the new node.
  unfoldable pub link_back : ℕ → ℕ → ℕ → HnswIndex → ℕ → Outcome HnswIndex
  link_back new_pos layer m_max idx nb = do
    nbs ← neighbors_at idx nb layer
    let pushed = nbs ++ (new_pos ∷ [])
    idx' ← set_neighbors idx nb layer pushed
    elim (ltb m_max (length pushed)) [
      | true ↦ do shrunk ← shrink_neighbors idx' nb layer m_max; set_neighbors idx' nb layer shrunk
      | false ↦ ok idx'
    ]

  unfoldable pub link_all : ℕ → ℕ → ℕ → HnswIndex → List ℕ → Outcome HnswIndex
  link_all new_pos layer m_max idx [] = ok idx
  link_all new_pos layer m_max idx (nb ∷ chosen) = do
    idx' ← link_back new_pos layer m_max idx nb
    link_all new_pos layer m_max idx' chosen

  -- The product wraps in a release build.
  abbrev pub m_max_of : HnswIndex → ℕ → ℕ
  m_max_of idx layer = if layer == 0 then idx.config.m * 2 % (usize_max + 1) else idx.config.m

  -- One layer of the second phase; the nearest candidate is where the next layer starts.
  unfoldable pub link_layer :
      HnswIndex → List F32 → ℕ → ℕ → ℕ × F32 → Outcome (HnswIndex × (ℕ × F32))
  link_layer idx query new_pos layer (ep, ep_dist) = do
    (cands, _) ←
        search_layer noop_sink idx query (record { distance = ep_dist; node = ep })
          idx.config.ef_construction layer (λ _. ok true) tt
    chosen ← select_neighbors idx cands idx.config.m
    idx₁ ← link_all new_pos layer (m_max_of idx layer) idx chosen
    idx₂ ← set_neighbors idx₁ new_pos layer chosen
    elim cands [ [] ↦ panic | closest ∷ _ ↦ ok (idx₂, (closest.node, closest.distance)) ]

  -- The layers below `count`, from the top.
  unfoldable pub link_layers : HnswIndex → List F32 → ℕ → ℕ → ℕ × F32 → Outcome HnswIndex
  link_layers idx query new_pos zero at = ok idx
  link_layers idx query new_pos (suc count) at = do
    (idx', at') ← link_layer idx query new_pos count at
    link_layers idx' query new_pos count at'

  -- `level + 1`, which wraps in a release build.
  abbrev pub layers_of : ℕ → ℕ
  layers_of level = (level + 1) % (usize_max + 1)

  -- The arena with the new node, which no list names yet.
  unfoldable pub push_node : HnswIndex → VectorId → Vector → Option Value → ℕ → HnswIndex
  push_node idx id vector payload level = record idx {
    nodes =
        idx.nodes
        ++ (record {
          id = id;
          vector = vector;
          neighbors = replicate (layers_of level) [];
          deleted = false;
          payload = payload;
        }
            ∷ []);
    id_to_pos = Dict.insert idx.id_to_pos id (length idx.nodes);
    live_count = idx.live_count + 1;
  }

  -- Both phases of the insertion of the node `new_pos` into a graph with an entry point.
  unfoldable pub connect : HnswIndex → List F32 → ℕ → ℕ → ℕ → Outcome HnswIndex
  connect idx query new_pos level entry = do
    d ← dist_to_node idx query entry
    let low = layers_of level
    (at, _) ← descend noop_sink idx query low (suc idx.max_layer - low) (entry, d) tt
    idx' ← link_layers idx query new_pos (suc (min level idx.max_layer)) at
    ok (
        if ltb idx.max_layer level
        then record idx' { max_layer = level; entry_point = some new_pos }
        else idx')

  -- The duplicate test: a tombstone gives its id up.
  unfoldable pub is_taken : HnswIndex → VectorId → Outcome Bool
  is_taken idx id = elim (Dict.get idx.id_to_pos id) [
    | none ↦ ok false
    | some pos ↦ do node ← node_at idx pos; ok (not node.deleted)
  ]

  -- The arena takes u32::MAX nodes and one more: positions are u32.
  abbrev pub u32_max : ℕ
  u32_max = 0xffff_ffff

  unfoldable pub add_with_payload : HnswIndex → VectorId → Vector → Option Value → Outcome HnswIndex
  add_with_payload idx id vector payload =
      if not (Vector.dim vector == idx.dim)
      then err (dimension_mismatch idx.dim (Vector.dim vector))
      else (do
        taken ← is_taken idx id
        let (sampled, level) = sample_level idx
        let new_pos = length idx.nodes
        let pushed = push_node sampled id vector payload level
        if taken
            then err (duplicate_id id)
            else if ltb u32_max new_pos
            then panic
            else elim idx.entry_point [
              | none ↦ ok (record pushed { entry_point = some new_pos; max_layer = level })
              | some entry ↦ connect pushed (Vector.as_slice vector) new_pos level entry
            ])

  -- `live_count -= 1` panics below zero, in a build with overflow checks.
  unfoldable pub remove : HnswIndex → VectorId → Outcome (HnswIndex × Bool)
  remove idx id = elim (Dict.get idx.id_to_pos id) [
    | none ↦ ok (idx, false)
    | some pos ↦ do
      node ← node_at idx pos
      if node.deleted
          then ok (idx, false)
          else if idx.live_count == 0
          then panic
          else ok (
            record idx {
              nodes = set idx.nodes pos (record node { deleted = true });
              live_count = idx.live_count - 1;
            },
            true,
          )
  ]
