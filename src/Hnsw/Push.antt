-- ===== src/Hnsw/Push.antt =====
-- A node without links is put behind the arena.
use vexdb.Prelude.{
  ℕ, zero, suc, ◌+◌, ◌<◌, false, Option, some, List, [], ◌∷◌, ◌++◌, ◌≡◌, refl, ◌∙◌, arith, length,
  get_elem?, replicate, All-imp, ◌⊎◌, inl, inr,
}
use vexdb.Platform.{Platform}
use vexdb.Error.{VectorId}
use vexdb.Vector.{Vector}
use vexdb.Collections.Dict
use vexdb.Collections.Dict.{nat_eq}
use vexdb.Hnsw.{HnswIndex, Node}
use vexdb.Hnsw.Insert.{push_node, layers_of}
use vexdb.Hnsw.Graph.{HasLayer}
use vexdb.Hnsw.Rewire.{IsWoven}

nth_empty : (n i : ℕ) → i < n → get_elem? {A = List ℕ} (replicate n []) i ≡ some []
nth_empty zero i h = absurd (omega arith)
nth_empty (suc n) zero h = refl
nth_empty (suc n) (suc i) h = nth_empty n i (omega arith)

nth_empty_inv : (n i : ℕ) (list : List ℕ) → get_elem? (replicate n []) i ≡ some list → [] ≡ list
nth_empty_inv zero i list h = cc
nth_empty_inv (suc n) zero list h = ground (arith, h)
nth_empty_inv (suc n) (suc i) list h = nth_empty_inv n i list h

get_elem?-push_cases {ℓ} :
    {A : Type ℓ} (xs : List A) (v : A) (i : ℕ) {x : A}
    → get_elem? (xs ++ (v ∷ [])) i ≡ some x
    → ((i ≡ length xs) × (v ≡ x)) ⊎ (get_elem? xs i ≡ some x)
get_elem?-push_cases [] v zero h = inl (refl, cc)
get_elem?-push_cases [] v (suc i) h = cc
get_elem?-push_cases (x ∷ xs) v zero h = inr h
get_elem?-push_cases (x ∷ xs) v (suc i) h = elim (get_elem?-push_cases xs v i h) [
  | inl (e, same) ↦ inl (omega arith, same)
  | inr at ↦ inr at
]

pub get_elem?-push_old {ℓ} :
    {A : Type ℓ} (xs : List A) (v : A) (i : ℕ) {x : A}
    → get_elem? xs i ≡ some x
    → get_elem? (xs ++ (v ∷ [])) i ≡ some x
get_elem?-push_old [] v i h = cc
get_elem?-push_old (x ∷ xs) v zero h = h
get_elem?-push_old (x ∷ xs) v (suc i) h = get_elem?-push_old xs v i h

pub get_elem?-push_self {ℓ} :
    {A : Type ℓ} (xs : List A) (v : A) → get_elem? (xs ++ (v ∷ [])) (length xs) ≡ some v
get_elem?-push_self [] v = refl
get_elem?-push_self (x ∷ xs) v = get_elem?-push_self xs v

module _ ⦃p : Platform⦄ where
  open p use {Value, usize_max}

  -- Only the nodes and the dimension matter to a woven graph.
  pub HasLayer-same :
      (a b : HnswIndex) (layer n : ℕ) → a.nodes ≡ b.nodes → HasLayer a layer n → HasLayer b layer n
  HasLayer-same a b layer n e h = record {
    node = h.node;
    list = h.list;
    at = rw e at h.at;
    listed = h.listed;
  }

  pub IsWoven-same : (a b : HnswIndex) → a.nodes ≡ b.nodes → a.dim ≡ b.dim → IsWoven a → IsWoven b
  IsWoven-same a b e f w = record {
    vectors = record { sized = λ n node at. w.vectors.sized n node (rw (← e) at at) ∙ f };
    links = λ layer. record {
      linked = λ n node list at listed.
          All-imp (λ m. HasLayer-same a b layer m e) list
            ((w.links layer).linked n node list (rw (← e) at at) listed);
    };
  }

  module _ (idx : HnswIndex) (w : IsWoven idx) (id : VectorId) (v : Vector) (payload : Option Value)
      (level : ℕ) (fits : length v.values ≡ idx.dim) where
    abbrev new_node : Node
    new_node = record {
      id = id;
      vector = v;
      neighbors = replicate (layers_of level) [];
      deleted = false;
      payload = payload;
    }

    abbrev pushed : HnswIndex
    pushed = record idx {
      nodes = idx.nodes ++ (new_node ∷ []);
      id_to_pos = Dict.insert idx.id_to_pos id (length idx.nodes);
      live_count = idx.live_count + 1;
    }

    pushed-HasLayer : (layer n : ℕ) → HasLayer idx layer n → HasLayer pushed layer n
    pushed-HasLayer layer n h = record {
      node = h.node;
      list = h.list;
      at = get_elem?-push_old idx.nodes new_node n h.at;
      listed = h.listed;
    }

    new-HasLayer : (layer : ℕ) → layer < layers_of level → HasLayer pushed layer (length idx.nodes)
    new-HasLayer layer inside = record {
      node = new_node;
      list = [];
      at = get_elem?-push_self idx.nodes new_node;
      listed = nth_empty (layers_of level) layer inside;
    }

    pushed-IsWoven : IsWoven pushed
    pushed-IsWoven = record {
      vectors = record {
        sized = λ n node at. elim (get_elem?-push_cases idx.nodes new_node n at) [
          | inl (_, same) ↦ rw (← same) fits
          | inr old ↦ w.vectors.sized n node old
        ];
      };
      links = λ layer. record {
        linked = λ n node list at listed. elim (get_elem?-push_cases idx.nodes new_node n at) [
          | inr old ↦
              All-imp (pushed-HasLayer layer) list ((w.links layer).linked n node list old listed)
          | inl (_, same) ↦
              let its : get_elem? (replicate (layers_of level) []) layer ≡ some list =
                rw (← same) at listed in
              let none_there = nth_empty_inv (layers_of level) layer list its in
              rw (← none_there) tt
        ];
      };
    }

    -- The node is there: the graph is woven, the old nodes are on their layers, and the new one is on
    -- each of its own.
    pub push_node-IsWoven :
        IsWoven (push_node idx id v payload level)
        × ((layer n : ℕ)
            → HasLayer idx layer n
            → HasLayer (push_node idx id v payload level) layer n)
        × ((layer : ℕ)
            → layer < layers_of level
            → HasLayer (push_node idx id v payload level) layer (length idx.nodes))
    unfolding push_node
    push_node-IsWoven = (pushed-IsWoven, pushed-HasLayer, new-HasLayer)
