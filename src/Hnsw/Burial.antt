-- ===== src/Hnsw/Burial.antt =====
-- `remove` on a well-formed index.
use vexdb.Prelude.{
  ℕ, ◌-◌, Bool, true, false, some, ◌≡◌, refl, ap, ◌∙◌, arith, get_elem?, set, All-imp, Bool-cases,
  Option-cases, inl, inr, ◌==◌, length-set, get_elem?-set_self, get_elem?-set_ne,
}
use vexdb.Platform.{Platform}
use vexdb.Error.{VectorId, ok, panic}
use vexdb.Collections.Dict
use vexdb.Collections.Dict.{nat_eq}
use vexdb.Collections.Vec.{get_elem?_of_lt, lt_of_get_elem?}
use vexdb.Hnsw.{HnswIndex, Node, node_at}
use vexdb.Hnsw.Insert.{remove}
use vexdb.Hnsw.Graph.{HasLayer}
use vexdb.Hnsw.Rewire.{get_elem?-set_inv}
use vexdb.Hnsw.Insertion.{IsIndex}

module _ ⦃p : Platform⦄ where
  module _ (idx : HnswIndex) (w : IsIndex idx) (pos : ℕ) (node : Node)
      (at : get_elem? idx.nodes pos ≡ some node) (count : ℕ) where
    abbrev dead : Node
    dead = record node { deleted = true }

    abbrev buried : HnswIndex
    buried = record idx { nodes = set idx.nodes pos dead; live_count = count }

    buried-HasLayer : (layer n : ℕ) → HasLayer idx layer n → HasLayer buried layer n
    buried-HasLayer layer n h = elim (Bool-cases (pos == n)) [
      | inr ne ↦ record {
        node = h.node;
        list = h.list;
        at = get_elem?-set_ne idx.nodes dead (ground (arith, ne)) ∙ h.at;
        listed = h.listed;
      }
      | inl e ↦
          let same : pos ≡ n = ground (arith, e) in
          let its : node ≡ h.node = ground (arith, at, h.at, same) in
          record {
            node = dead;
            list = h.list;
            at =
                rw (← same)
                  (get_elem?-set_self idx.nodes pos dead (lt_of_get_elem? idx.nodes pos at));
            listed = rw its h.listed;
          }
    ]

    -- Each node was there, with its vector and its links.
    before :
        (n : ℕ) (other : Node)
        → get_elem? buried.nodes n ≡ some other
        → (old : Node) × (get_elem? idx.nodes n ≡ some old)
          × (old.vector ≡ other.vector)
          × (old.neighbors ≡ other.neighbors)
    before n other there = elim (get_elem?-set_inv idx.nodes pos n dead there) [
      | inl (e, same) ↦ (node, rw (← e) at, ap (λ x. x.vector) same, ap (λ x. x.neighbors) same)
      | inr (ne, old) ↦ (other, old, refl, refl)
    ]

    buried-IsIndex : IsIndex buried
    buried-IsIndex = record {
      graph = record {
        vectors = record {
          sized = λ n other there.
              let (old, was, v, _) = before n other there in
              rw (← v) (w.graph.vectors.sized n old was);
        };
        links = λ layer. record {
          linked = λ n other list there listed.
              let (old, was, _, ns) = before n other there in
              All-imp (buried-HasLayer layer) list
                ((w.graph.links layer).linked n old list was (rw ns listed));
        };
        entry =
            λ ep layer entered low. buried-HasLayer layer ep (w.graph.entry ep layer entered low);
      };
      placed = λ id q found. rw (length-set idx.nodes pos dead) (w.placed id q found);
    }

  -- A removal changes neither a vector nor a link.
  pub remove-IsIndex :
      (idx idx' : HnswIndex) (id : VectorId) (was : Bool)
      → IsIndex idx
      → remove idx id ≡ ok (idx', was)
      → IsIndex idx' × (idx'.config ≡ idx.config) × (idx'.dim ≡ idx.dim)
  unfolding remove node_at
  remove-IsIndex idx idx' id was w run = elim (Option-cases (Dict.get idx.id_to_pos id)) [
    | inl free ↦
        let same : remove idx id ≡ ok (idx, false) = ground (arith, free) in
        let e : idx ≡ idx' = cc in rw (← e) (w, refl, refl)
    | inr (pos, found) ↦
        let (node, at) = get_elem?_of_lt idx.nodes pos (w.placed id pos found) in
        elim (Bool-cases node.deleted) [
          | inl gone ↦
              let same : remove idx id ≡ ok (idx, false) = ground (arith, found, at, gone) in
              let e : idx ≡ idx' = cc in rw (← e) (w, refl, refl)
          | inr alive ↦ elim (Bool-cases (idx.live_count == 0)) [
            | inl none_left ↦
                let stuck : remove idx id ≡ panic = ground (arith, found, at, alive, none_left) in
                cc
            | inr some_left ↦
                let done : remove idx id
                    ≡ ok (buried idx w pos node at (idx.live_count - 1), true) =
                  ground (arith, found, at, alive, some_left) in
                let e : buried idx w pos node at (idx.live_count - 1) ≡ idx' = cc in
                rw (← e) (buried-IsIndex idx w pos node at (idx.live_count - 1), refl, refl)
          ]
        ]
  ]
