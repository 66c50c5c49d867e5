-- ===== src/Hnsw/Grown.antt =====
-- The index that an insertion makes of a well-formed one: the new node, alone or linked into the graph.
use vexdb.Prelude.{
  get_elem?, [], ℕ, suc, ◌+◌, ◌≤◌, ◌<◌, Bool, true, false, not, Option, some, ◌≡◌, refl, sym, ap,
  ◌∙◌, arith, length, Option-cases, ◌⊎◌, inl, inr, length-append,
}
use vexdb.Platform.{Platform}
use vexdb.Platform.Laws.{FloatOrder}
use vexdb.Error.{VectorId, Outcome, ok, err, panic, duplicate_id}
use vexdb.Vector
use vexdb.Vector.{Vector}
use vexdb.Collections.Dict
use vexdb.Collections.Dict.{nat_eq}
use vexdb.Collections.Vec.{get_elem?_of_lt}
use vexdb.Hnsw.{HnswIndex, Node, node_at, new}
use vexdb.Hnsw.Level.{sample_level}
use vexdb.Hnsw.Insert.{connect, layers_of, push_node, is_taken}
use vexdb.Hnsw.Graph.{HasLayer}
use vexdb.Hnsw.Rewire.{IsWoven, Copied, SameData-refl, SameData-trans}
use vexdb.Hnsw.Push.{
  get_elem?-push_old, get_elem?-push_self, push_node-IsWoven, HasLayer-same, IsWoven-same,
}
use vexdb.Hnsw.Link.{Overfull}
use vexdb.Hnsw.Insertion.{IsIndex, woven, connect-ok}

module _ ⦃p : Platform⦄ where
  open p use {F32, Value, usize_max}

  -- The node of an insertion, but for its links.
  abbrev pub fresh : VectorId → Vector → Option Value → Node
  fresh id v payload = record {
    id = id;
    vector = v;
    neighbors = [];
    deleted = false;
    payload = payload;
  }

  -- The index after an insertion: well formed, with the data of the old nodes, and one node more, which
  -- the id names.
  pub record IsGrown (idx : HnswIndex) (id : VectorId) (v : Vector) (payload : Option Value)
      (idx' : HnswIndex) : Type 0 where
    pub index : IsIndex idx'
    pub size : length idx'.nodes ≡ length idx.nodes + 1
    pub counted : idx'.live_count ≡ idx.live_count + 1
    pub mapped : idx'.id_to_pos ≡ Dict.insert idx.id_to_pos id (length idx.nodes)
    pub stored : Copied (fresh id v payload) idx'.nodes (length idx.nodes)
    pub copied :
        (n : ℕ) (node : Node) → get_elem? idx.nodes n ≡ some node → Copied node idx'.nodes n
    pub same_dim : idx'.dim ≡ idx.dim
    pub same_config : idx'.config ≡ idx.config

  -- What an insertion returns: the error for an id that a live node has, or an index that has grown.
  abbrev pub Inserts : HnswIndex → VectorId → Vector → Option Value → Outcome HnswIndex → Type 0
  Inserts idx id v payload outcome =
      ((is_taken idx id ≡ ok true) × (outcome ≡ err (duplicate_id id)))
      ⊎ ((is_taken idx id ≡ ok false)
          × (idx' : HnswIndex) × (outcome ≡ ok idx')
          × IsGrown idx id v payload idx')

  module _ (idx : HnswIndex) (w : IsIndex idx) (id : VectorId) where
    pub is_taken-ok : (taken : Bool) × (is_taken idx id ≡ ok taken)
    unfolding is_taken node_at
    is_taken-ok = elim (Option-cases (Dict.get idx.id_to_pos id)) [
      | inl free ↦ (false, ground (arith, free))
      | inr (pos, at) ↦
          let (node, there) = get_elem?_of_lt idx.nodes pos (w.placed id pos at) in
          (not node.deleted, ground (arith, at, there))
    ]

    module _ (v : Vector) (payload : Option Value) (level : ℕ) (fits : length v.values ≡ idx.dim)
        (whole : layers_of level ≡ suc level) where
      abbrev pushed : HnswIndex
      pushed = push_node (sample_level idx).0 id v payload level

      pushed-size : length pushed.nodes ≡ length idx.nodes + 1
      unfolding push_node sample_level
      pushed-size = rw (length-append) refl

      pushed-mapped : pushed.id_to_pos ≡ Dict.insert idx.id_to_pos id (length idx.nodes)
      unfolding push_node sample_level
      pushed-mapped = refl

      pushed-stored : Copied (fresh id v payload) pushed.nodes (length idx.nodes)
      unfolding push_node sample_level
      pushed-stored = (
        _,
        get_elem?-push_self idx.nodes _,
        record { same_id = refl; same_vector = refl; same_deleted = refl; same_payload = refl },
      )

      pushed-old :
          (n : ℕ) (node : Node)
          → get_elem? idx.nodes n ≡ some node
          → get_elem? pushed.nodes n ≡ some node
      unfolding push_node sample_level
      pushed-old n node at = get_elem?-push_old idx.nodes _ n at

      pushed-placed :
          (j : VectorId) (pos : ℕ)
          → Dict.get pushed.id_to_pos j ≡ some pos
          → pos < length idx.nodes + 1
      unfolding push_node sample_level
      pushed-placed j pos at =
          let got = Dict.get-insert idx.id_to_pos id (length idx.nodes) j in
          ground (arith, got, at, w.placed j pos)

      pushed-woven :
          IsWoven pushed
          × ((layer n : ℕ) → HasLayer idx layer n → HasLayer pushed layer n)
          × ((layer : ℕ) → layer ≤ level → HasLayer pushed layer (length idx.nodes))
      unfolding sample_level
      pushed-woven =
          let sampled = (sample_level idx).0 in
          let (woven', old, new) =
            push_node-IsWoven sampled (IsWoven-same idx sampled refl refl (woven idx w.graph)) id v
              payload level fits in
          (
            woven',
            λ layer n there. old layer n (HasLayer-same idx sampled layer n refl there),
            λ layer low. new layer (rw whole (omega (arith, low))),
          )

      pushed-entry :
          (ep layer : ℕ)
          → idx.entry_point ≡ some ep
          → layer ≤ idx.max_layer
          → HasLayer pushed layer ep
      pushed-entry ep layer entered low =
          let (_, old, _) = pushed-woven in old layer ep (w.graph.entry ep layer entered low)

      -- The first node is the entry point, on the layers up to its level.
      pub first-IsGrown :
          IsGrown idx id v payload
            (record pushed { entry_point = some (length idx.nodes); max_layer = level })
      unfolding push_node sample_level
      first-IsGrown =
          let (w', _, new) = pushed-woven in
          let grown : HnswIndex = record pushed {
            entry_point = some (length idx.nodes);
            max_layer = level;
          } in
          let same = IsWoven-same pushed grown refl refl w' in
          record {
            index = record {
              graph = record {
                vectors = same.vectors;
                links = same.links;
                entry = λ ep layer at low.
                    let e : length idx.nodes ≡ ep = cc in
                    HasLayer-same pushed grown layer ep refl (rw (← e) (new layer low));
              };
              placed = λ j pos at. rw pushed-size (pushed-placed j pos at);
            };
            size = pushed-size;
            counted = refl;
            mapped = pushed-mapped;
            stored = pushed-stored;
            copied = λ n node at. (node, pushed-old n node at, SameData-refl node);
            same_dim = refl;
            same_config = refl;
          }

      -- A further node is linked into the graph.
      pub next-IsGrown :
          FloatOrder p
          → 1 ≤ idx.config.ef_construction
          → (entry : ℕ) → idx.entry_point ≡ some entry
          → (Overfull idx
              × (connect pushed (Vector.as_slice v) (length idx.nodes) level entry ≡ panic))
            ⊎ ((idx' : HnswIndex) × (connect pushed
                    (Vector.as_slice v)
                    (length idx.nodes)
                    level
                    entry
                  ≡ ok idx')
                × IsGrown idx id v payload idx')
      unfolding push_node sample_level
      next-IsGrown floats positive entry entered =
          let (w', _, new) = pushed-woven in
          elim (connect-ok floats v.values (length idx.nodes) level whole pushed
            (record { vectors = w'.vectors; links = w'.links; entry = pushed-entry }) fits positive
            entry entered new) [
              | inl (full, stop) ↦ inl (full, stop)
              | inr (idx', run, kept) ↦
                  let size' = kept.size ∙ pushed-size in
                  inr (
                    idx',
                    run,
                    record {
                      index = record {
                        graph = kept.graph;
                        placed = λ j pos at.
                            rw size' (
                              pushed-placed j pos
                                (ap (λ m. Dict.get m j) (sym kept.same_map) ∙ at));
                      };
                      size = size';
                      counted = kept.same_live;
                      mapped = kept.same_map ∙ pushed-mapped;
                      stored =
                          let (node, at, given) = pushed-stored in
                          let (copy, there, same) = kept.copied (length idx.nodes) node at in
                          (copy, there, SameData-trans copy node (fresh id v payload) same given);
                      copied = λ n node at. kept.copied n node (pushed-old n node at);
                      same_dim = kept.same_dim;
                      same_config = kept.same_config;
                    },
                  )
            ]
