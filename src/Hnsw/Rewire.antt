-- ===== src/Hnsw/Rewire.antt =====
-- A list of neighbours is replaced.
use vexdb.Prelude.{
  ℕ, zero, suc, some, List, [], ◌∷◌, ◌≡◌, ◌≢◌, refl, ap, ◌∙◌, arith, length, get_elem?, set, All,
  All-imp, Bool-cases, ◌⊎◌, inl, inr, ◌==◌, length-set, get_elem?-set_self, get_elem?-set_ne,
}
use vexdb.Platform.{Platform}
use vexdb.Error.{ok, ◌>>=◌}
use vexdb.Collections.Vec.{get_elem?_of_lt, lt_of_get_elem?}
use vexdb.Hnsw.{HnswIndex, Node, node_at}
use vexdb.Hnsw.Insert.{set_neighbors}
use vexdb.Hnsw.Graph.{HasLayer, IsSized, IsLinked, Stands}

-- What a list has after a write.
pub get_elem?-set_inv {ℓ} :
    {A : Type ℓ} (xs : List A) (i j : ℕ) (v : A) {x : A}
    → get_elem? (set xs i v) j ≡ some x
    → ((i ≡ j) × (v ≡ x)) ⊎ ((i ≢ j) × (get_elem? xs j ≡ some x))
get_elem?-set_inv [] i j v h = cc
get_elem?-set_inv (y ∷ ys) zero zero v h = inl (refl, cc)
get_elem?-set_inv (y ∷ ys) zero (suc j) v h = inr (λ e. omega arith, h)
get_elem?-set_inv (y ∷ ys) (suc i) zero v h = inr (λ e. omega arith, h)
get_elem?-set_inv (y ∷ ys) (suc i) (suc j) v h = elim (get_elem?-set_inv ys i j v h) [
  | inl (e, same) ↦ inl (omega arith, same)
  | inr (ne, at) ↦ inr (λ e. ne (omega arith), at)
]

module _ ⦃p : Platform⦄ where
  open p use {F32}

  -- Vectors of the dimension of the index, and links that stay on their layers.
  pub record IsWoven (idx : HnswIndex) : Type 0 where
    pub vectors : IsSized idx
    pub links : (layer : ℕ) → IsLinked idx layer

  -- The node is still on the layer, with the vector that it had.
  pub record StillHas (idx : HnswIndex) (layer n : ℕ) (before : HasLayer idx layer n)
      (idx' : HnswIndex) : Type 0 where
    pub after : HasLayer idx' layer n
    pub same_vector : after.node.vector ≡ before.node.vector

  -- Nodes that differ in their lists of neighbours at most.
  pub record SameData (a b : Node) : Type 0 where
    pub same_id : a.id ≡ b.id
    pub same_vector : a.vector ≡ b.vector
    pub same_deleted : a.deleted ≡ b.deleted
    pub same_payload : a.payload ≡ b.payload

  abbrev pub Copied : Node → List Node → ℕ → Type 0
  Copied node nodes n = (copy : Node) × (get_elem? nodes n ≡ some copy) × SameData copy node

  -- Everything but lists of neighbours is as it was.
  pub record IsRewired (idx idx' : HnswIndex) : Type 0 where
    pub same_dim : idx'.dim ≡ idx.dim
    pub same_metric : idx'.metric ≡ idx.metric
    pub same_config : idx'.config ≡ idx.config
    pub same_entry : idx'.entry_point ≡ idx.entry_point
    pub same_top : idx'.max_layer ≡ idx.max_layer
    pub same_map : idx'.id_to_pos ≡ idx.id_to_pos
    pub same_live : idx'.live_count ≡ idx.live_count
    pub size : length idx'.nodes ≡ length idx.nodes
    pub copied :
        (n : ℕ) (node : Node) → get_elem? idx.nodes n ≡ some node → Copied node idx'.nodes n
    pub still : (layer n : ℕ) (before : HasLayer idx layer n) → StillHas idx layer n before idx'

  pub SameData-refl : (a : Node) → SameData a a
  SameData-refl a = record {
    same_id = refl;
    same_vector = refl;
    same_deleted = refl;
    same_payload = refl;
  }

  pub SameData-trans : (a b c : Node) → SameData a b → SameData b c → SameData a c
  SameData-trans a b c d e = record {
    same_id = d.same_id ∙ e.same_id;
    same_vector = d.same_vector ∙ e.same_vector;
    same_deleted = d.same_deleted ∙ e.same_deleted;
    same_payload = d.same_payload ∙ e.same_payload;
  }

  pub IsRewired-refl : (idx : HnswIndex) → IsRewired idx idx
  IsRewired-refl idx = record {
    same_dim = refl;
    same_metric = refl;
    same_config = refl;
    same_entry = refl;
    same_top = refl;
    same_map = refl;
    same_live = refl;
    size = refl;
    copied = λ n node at. (node, at, SameData-refl node);
    still = λ layer n before. record { after = before; same_vector = refl };
  }

  pub IsRewired-trans : (a b c : HnswIndex) → IsRewired a b → IsRewired b c → IsRewired a c
  IsRewired-trans a b c g h = record {
    same_dim = h.same_dim ∙ g.same_dim;
    same_metric = h.same_metric ∙ g.same_metric;
    same_config = h.same_config ∙ g.same_config;
    same_entry = h.same_entry ∙ g.same_entry;
    same_top = h.same_top ∙ g.same_top;
    same_map = h.same_map ∙ g.same_map;
    same_live = h.same_live ∙ g.same_live;
    size = h.size ∙ g.size;
    copied = λ n node at.
        let (mid, at_mid, d) = g.copied n node at in
        let (end, at_end, e) = h.copied n mid at_mid in
        (end, at_end, SameData-trans end mid node e d);
    still = λ layer n before.
        let mid = g.still layer n before in
        let end = h.still layer n mid.after in
        record { after = end.after; same_vector = end.same_vector ∙ mid.same_vector };
  }

  pub IsRewired-All :
      (idx idx' : HnswIndex) (layer : ℕ) (ns : List ℕ)
      → IsRewired idx idx'
      → All (HasLayer idx layer) ns
      → All (HasLayer idx' layer) ns
  IsRewired-All idx idx' layer ns r = All-imp (λ n before. (r.still layer n before).after) ns

  pub IsRewired-Stands :
      (idx idx' : HnswIndex) (layer : ℕ) (query : List F32) (n : ℕ) (d : F32)
      → IsRewired idx idx'
      → Stands idx layer query n d
      → Stands idx' layer query n d
  IsRewired-Stands idx idx' layer query n d r s =
      let now = r.still layer n s.there in
      record { there = now.after; measured = rw (r.same_metric, now.same_vector) s.measured }

  module _ (idx : HnswIndex) (w : IsWoven idx) (n layer : ℕ) (list : List ℕ)
      (here : HasLayer idx layer n) (known : All (HasLayer idx layer) list) where
    abbrev rewired_node : Node
    rewired_node = record here.node { neighbors = set here.node.neighbors layer list }

    abbrev rewired : HnswIndex
    rewired = record idx { nodes = set idx.nodes n rewired_node }

    rewired_still : (l m : ℕ) (before : HasLayer idx l m) → StillHas idx l m before rewired
    rewired_still l m before = elim (Bool-cases (n == m)) [
      | inr ne ↦ record {
        after = record {
          node = before.node;
          list = before.list;
          at = get_elem?-set_ne idx.nodes rewired_node (ground (arith, ne)) ∙ before.at;
          listed = before.listed;
        };
        same_vector = refl;
      }
      | inl e ↦
          let same : n ≡ m = ground (arith, e) in
          let there : get_elem? idx.nodes n ≡ some before.node = rw same before.at in
          let same_node : here.node ≡ before.node = ground (arith, here.at, there) in
          let inside = lt_of_get_elem? before.node.neighbors l before.listed in
          let size = length-set here.node.neighbors layer list in
          let (list', listed) =
            get_elem?_of_lt (set here.node.neighbors layer list) l
              (rw size (rw same_node inside)) in
          record {
            after = record {
              node = rewired_node;
              list = list';
              at = rw (← same) (
                  get_elem?-set_self idx.nodes n rewired_node
                    (lt_of_get_elem? idx.nodes n here.at));
              listed = listed;
            };
            same_vector = ap (λ (x : Node). x.vector) same_node;
          }
    ]

    rewired_sized :
        (m : ℕ) (node : Node)
        → get_elem? rewired.nodes m ≡ some node
        → length node.vector.values ≡ idx.dim
    rewired_sized m node at = elim (get_elem?-set_inv idx.nodes n m rewired_node at) [
      | inl (_, same) ↦ rw (← same) (w.vectors.sized n here.node here.at)
      | inr (_, before) ↦ w.vectors.sized m node before
    ]

    rewired_linked :
        (l m : ℕ) (node : Node) (links : List ℕ)
        → get_elem? rewired.nodes m ≡ some node
        → get_elem? node.neighbors l ≡ some links
        → All (HasLayer idx l) links
    rewired_linked l m node links at listed =
        elim (get_elem?-set_inv idx.nodes n m rewired_node at) [
          | inr (_, before) ↦ (w.links l).linked m node links before listed
          | inl (_, same) ↦
              let its : get_elem? (set here.node.neighbors layer list) l ≡ some links =
                rw (← same) at listed in
              elim (get_elem?-set_inv here.node.neighbors layer l list its) [
                | inl (same_layer, same_list) ↦ rw same_layer at (rw same_list at known)
                | inr (_, old) ↦ (w.links l).linked n here.node links here.at old
              ]
        ]

    rewired_copied :
        (m : ℕ) (node : Node) → get_elem? idx.nodes m ≡ some node → Copied node rewired.nodes m
    rewired_copied m node at = elim (Bool-cases (n == m)) [
      | inr ne ↦ (
        node,
        get_elem?-set_ne idx.nodes rewired_node (ground (arith, ne)) ∙ at,
        SameData-refl node,
      )
      | inl e ↦
          let same : n ≡ m = ground (arith, e) in
          let there : get_elem? idx.nodes n ≡ some node = rw same at in
          let same_node : here.node ≡ node = ground (arith, here.at, there) in
          let written =
            get_elem?-set_self idx.nodes n rewired_node (lt_of_get_elem? idx.nodes n here.at) in
          (
            rewired_node,
            rw (← same) written,
            record {
              same_id = ap (λ (x : Node). x.id) same_node;
              same_vector = ap (λ (x : Node). x.vector) same_node;
              same_deleted = ap (λ (x : Node). x.deleted) same_node;
              same_payload = ap (λ (x : Node). x.payload) same_node;
            },
          )
    ]

    rewired-IsRewired : IsRewired idx rewired
    rewired-IsRewired = record {
      same_dim = refl;
      same_metric = refl;
      same_config = refl;
      same_entry = refl;
      same_top = refl;
      same_map = refl;
      same_live = refl;
      size = length-set idx.nodes n rewired_node;
      copied = rewired_copied;
      still = rewired_still;
    }

    -- Writing a list of nodes of the layer succeeds.
    pub set_neighbors-ok :
        (idx' : HnswIndex) × (set_neighbors idx n layer list ≡ ok idx')
        × IsWoven idx'
        × IsRewired idx idx'
    unfolding set_neighbors node_at
    set_neighbors-ok = (
      rewired,
      simp (here.at, here.listed, ◌>>=◌),
      record {
        vectors = record { sized = rewired_sized };
        links = λ l. record {
          linked = λ m node links at listed.
              IsRewired-All idx rewired l links rewired-IsRewired
                (rewired_linked l m node links at listed);
        };
      },
      rewired-IsRewired,
    )
