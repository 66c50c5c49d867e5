-- ===== src/Hnsw/Replacement.antt =====
-- The graph index as the loop of an upsert uses it: a removal of an id, and an insertion of the id.
use vexdb.Prelude.{
  ℕ, zero, suc, ◌-◌, Bool, true, false, not, Option, List, [], ◌∷◌, ◌++◌, ◌≡◌, arith, length,
  get_elem?, get_elem?-set_self, ltb, ◌==◌, Bool-cases, Option-cases, inl, inr,
}
use Prim.Native.Nat.{min}
use vexdb.Platform.{Platform}
use vexdb.Error.{VectorId, ok, panic, expect}
use vexdb.Error.Yield.{Yields, Any, >>=-Yields, expect-Yields}
use vexdb.Vector
use vexdb.Vector.{Vector}
use vexdb.Collections.Dict
use vexdb.Collections.Dict.{nat_eq}
use vexdb.Collections.Vec.{lt_of_get_elem?}
use vexdb.Hnsw.{HnswIndex, Node, Candidate, node_at, neighbors_at, dist_to_node}
use vexdb.Hnsw.Trace.{noop_sink}
use vexdb.Hnsw.Layer.{search_layer}
use vexdb.Hnsw.Search.{descend}
use vexdb.Hnsw.Level.{sample_level}
use vexdb.Hnsw.Insert.{
  select_neighbors, shrink_neighbors, set_neighbors, link_back, link_all, m_max_of, link_layer,
  link_layers, layers_of, push_node, connect, is_taken, u32_max, add_with_payload, remove,
}
use vexdb.Hnsw.Errors.{
  node_at-Yields, neighbors_at-Yields, dist_to_node-Yields, descend-Yields, search_layer-Yields,
}
use vexdb.Hnsw.SelectionErrors.{select_neighbors-Yields, shrink_neighbors-Yields}

module _ ⦃p : Platform⦄ where
  open p use {F32, Value, lt_f}

  -- The index has the dimension `dim`.
  abbrev pub Sized : ℕ → HnswIndex → Type 0
  Sized dim idx = idx.dim ≡ dim

  module _ (dim : ℕ) where
    set_neighbors-Yields :
        (idx : HnswIndex) (n layer : ℕ) (list : List ℕ)
        → Sized dim idx
        → Yields (Sized dim) (set_neighbors idx n layer list)
    unfolding set_neighbors
    set_neighbors-Yields idx n layer list sized =
        >>=-Yields Any (Sized dim) (node_at idx n) _ (node_at-Yields idx n) λ node _.
          >>=-Yields Any (Sized dim) (expect (get_elem? node.neighbors layer)) _
            (expect-Yields (get_elem? node.neighbors layer)) λ _ _. sized

    link_back-Yields :
        (new_pos layer m_max : ℕ) (idx : HnswIndex) (nb : ℕ)
        → Sized dim idx
        → Yields (Sized dim) (link_back new_pos layer m_max idx nb)
    unfolding link_back
    link_back-Yields new_pos layer m_max idx nb sized =
        >>=-Yields Any (Sized dim) (neighbors_at idx nb layer) _ (neighbors_at-Yields idx nb layer)
          λ nbs _.
            let pushed = nbs ++ (new_pos ∷ []) in
            >>=-Yields (Sized dim) (Sized dim) (set_neighbors idx nb layer pushed) _
              (set_neighbors-Yields idx nb layer pushed sized)
              λ idx' same. elim (Bool-cases (ltb m_max (length pushed))) [
                | inl h ↦ rw h (
                    >>=-Yields Any (Sized dim) (shrink_neighbors idx' nb layer m_max) _
                      (shrink_neighbors-Yields idx' nb layer m_max)
                      λ shrunk _. set_neighbors-Yields idx' nb layer shrunk same)
                | inr h ↦ rw h same
              ]

    link_all-Yields :
        (new_pos layer m_max : ℕ) (idx : HnswIndex) (chosen : List ℕ)
        → Sized dim idx
        → Yields (Sized dim) (link_all new_pos layer m_max idx chosen)
    unfolding link_all
    link_all-Yields new_pos layer m_max idx [] sized = sized
    link_all-Yields new_pos layer m_max idx (nb ∷ chosen) sized =
        >>=-Yields (Sized dim) (Sized dim) (link_back new_pos layer m_max idx nb) _
          (link_back-Yields new_pos layer m_max idx nb sized)
          λ idx' same. link_all-Yields new_pos layer m_max idx' chosen same

    abbrev SizedAt : HnswIndex × (ℕ × F32) → Type 0
    SizedAt (idx, _) = Sized dim idx

    nearest-Yields :
        (idx : HnswIndex) (cands : List Candidate)
        → Sized dim idx
        → Yields SizedAt
            (elim cands [ [] ↦ panic | closest ∷ _ ↦ ok (idx, (closest.node, closest.distance)) ])
    nearest-Yields idx [] same = tt
    nearest-Yields idx (closest ∷ cands) same = same

    link_layer-Yields :
        (idx : HnswIndex) (query : List F32) (new_pos layer : ℕ) (at : ℕ × F32)
        → Sized dim idx
        → Yields SizedAt (link_layer idx query new_pos layer at)
    unfolding link_layer
    link_layer-Yields idx query new_pos layer (ep, ep_dist) sized =
        let start : Candidate = record { distance = ep_dist; node = ep } in
        let ef = idx.config.ef_construction in
        >>=-Yields Any SizedAt (search_layer noop_sink idx query start ef layer (λ _. ok true) tt) _
          (search_layer-Yields noop_sink idx query (λ _. ok true) (λ _. tt) start ef layer tt)
          λ (cands, _) _.
            >>=-Yields Any SizedAt (select_neighbors idx cands idx.config.m) _
              (select_neighbors-Yields idx cands idx.config.m)
              λ chosen _.
                >>=-Yields (Sized dim) SizedAt
                  (link_all new_pos layer (m_max_of idx layer) idx chosen) _
                  (link_all-Yields new_pos layer (m_max_of idx layer) idx chosen sized)
                  λ idx₁ same₁.
                    >>=-Yields (Sized dim) SizedAt (set_neighbors idx₁ new_pos layer chosen) _
                      (set_neighbors-Yields idx₁ new_pos layer chosen same₁)
                      λ idx₂ same₂. nearest-Yields idx₂ cands same₂

    link_layers-Yields :
        (idx : HnswIndex) (query : List F32) (new_pos count : ℕ) (at : ℕ × F32)
        → Sized dim idx
        → Yields (Sized dim) (link_layers idx query new_pos count at)
    unfolding link_layers
    link_layers-Yields idx query new_pos zero at sized = sized
    link_layers-Yields idx query new_pos (suc count) at sized =
        >>=-Yields SizedAt (Sized dim) (link_layer idx query new_pos count at) _
          (link_layer-Yields idx query new_pos count at sized)
          λ (idx', at') same. link_layers-Yields idx' query new_pos count at' same

    connect-Yields :
        (idx : HnswIndex) (query : List F32) (new_pos level entry : ℕ)
        → Sized dim idx
        → Yields (Sized dim) (connect idx query new_pos level entry)
    unfolding connect
    connect-Yields idx query new_pos level entry sized =
        let low = layers_of level in
        let count = suc idx.max_layer - low in
        let layers = suc (min level idx.max_layer) in
        >>=-Yields Any (Sized dim) (dist_to_node idx query entry) _
          (dist_to_node-Yields idx query entry)
          λ d _.
            >>=-Yields Any (Sized dim) (descend noop_sink idx query low count (entry, d) tt) _
              (descend-Yields noop_sink idx query low count (entry, d) tt)
              λ (at, _) _.
                >>=-Yields (Sized dim) (Sized dim) (link_layers idx query new_pos layers at) _
                  (link_layers-Yields idx query new_pos layers at sized)
                  λ idx' same. elim (Bool-cases (ltb idx.max_layer level)) [
                    | inl h ↦ rw h same
                    | inr h ↦ rw h same
                  ]

    -- An insertion of an id that is free, with a vector of the dimension.
    pub add_with_payload-Yields :
        (idx : HnswIndex) (id : VectorId) (v : Vector) (payload : Option Value)
        → Sized dim idx
        → Vector.dim v ≡ dim
        → is_taken idx id ≡ ok false
        → Yields (Sized dim) (add_with_payload idx id v payload)
    unfolding add_with_payload sample_level push_node
    add_with_payload-Yields idx id v payload sized fits free =
        let test : not (Vector.dim v == idx.dim) ≡ false = ground arith in
        elim (Bool-cases (ltb u32_max (length idx.nodes))) [
          | inl full ↦ rw (test, free, full) tt
          | inr room ↦ elim (Option-cases idx.entry_point) [
            | inl none_yet ↦ rw (test, free, room, none_yet) sized
            | inr (entry, at) ↦
                rw (test, free, room, at)
                  (connect-Yields (push_node (sample_level idx).0 id v payload (sample_level idx).1)
                    (Vector.as_slice v) (length idx.nodes) (sample_level idx).1 entry sized)
          ]
        ]

  -- The index without the id.
  abbrev pub Freed : ℕ → VectorId → HnswIndex × Bool → Type 0
  Freed dim id (idx, _) = Sized dim idx × (is_taken idx id ≡ ok false)

  pub remove-Yields :
      (dim : ℕ) (idx : HnswIndex) (id : VectorId)
      → Sized dim idx
      → Yields (Freed dim id) (remove idx id)
  unfolding remove is_taken node_at
  remove-Yields dim idx id sized = elim (Option-cases (Dict.get idx.id_to_pos id)) [
    | inl absent ↦ rw (absent, remove) (sized, rw (absent, is_taken))
    | inr (pos, at) ↦ elim (Option-cases (get_elem? idx.nodes pos)) [
      | inl outside ↦ rw (at, remove, node_at, outside) tt
      | inr (node, held) ↦ elim (Bool-cases node.deleted) [
        | inl dead ↦
            rw (at, remove, node_at, held, dead) (sized, rw (at, is_taken, node_at, held, dead))
        | inr alive ↦ elim (Bool-cases (idx.live_count == 0)) [
          | inl empty ↦ rw (at, remove, node_at, held, alive, empty) tt
          | inr some_live ↦
              let buried : Node = record node { deleted = true } in
              let here =
                get_elem?-set_self idx.nodes pos buried (lt_of_get_elem? idx.nodes pos held) in
              rw (at, remove, node_at, held, alive, some_live)
                (sized, rw (at, is_taken, node_at, here))
        ]
      ]
    ]
  ]
