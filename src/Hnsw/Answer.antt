-- ===== src/Hnsw/Answer.antt =====
-- What the searches of a graph index answer: live nodes that the filter selects, nearest first.
use vexdb.Prelude.{
  ℕ, ◌≤◌, true, false, Option, some, List, [], ◌∷◌, ◌≡◌, ◌≢◌, refl, arith, length, get_elem?, take,
  All, All-take, ◌⊎◌, inl, inr, length-take-le,
}
use vexdb.Platform.{Platform}
use vexdb.Platform.Laws.{FloatOrder}
use vexdb.Error.{ok}
use vexdb.Payload.{Filter}
use vexdb.Index.{SearchResult, selects}
use vexdb.Collections.Heap.Sorted.{IsSorted, NotBefore}
use vexdb.Collections.Heap.Bounded.{take-IsSorted}
use vexdb.Collections.Heap.Kept.{Pairwise, take-Pairwise}
use vexdb.Hnsw.{HnswIndex, Node, Candidate, cmp_candidate, node_at}
use vexdb.Hnsw.Search.{to_results}
use vexdb.Hnsw.Graph.{Reaches, HasLayer, far}
use vexdb.Hnsw.CandidateOrder.{cmp_candidate-IsTotalOrder}
use vexdb.Hnsw.Cover.{Listed, Listed-take}
use vexdb.Hnsw.Beam.{Apart}

module _ ⦃p : Platform⦄ where
  open p use {F32}

  -- The candidate is a live node that the filter selects, with its distance from the query.
  pub record IsHit (idx : HnswIndex) (query : List F32) (filter : Option Filter) (c : Candidate)
      : Type 0 where
    pub node : Node
    pub at : get_elem? idx.nodes c.node ≡ some node
    pub live : node.deleted ≡ false
    pub selected : selects filter node.payload ≡ true
    pub measured : c.distance ≡ far idx.metric query node

  -- The results name hits, nearest first, ties by position, no node twice, at most `k`.
  pub record IsAnswer (idx : HnswIndex) (query : List F32) (k : ℕ) (filter : Option Filter)
      (results : List SearchResult) : Type 0 where
    pub hits : List Candidate
    pub named : to_results idx hits ≡ ok results
    pub right : All (IsHit idx query filter) hits
    pub sorted : IsSorted cmp_candidate hits
    pub apart : Pairwise Apart hits
    pub short : length hits ≤ k

  -- And no live node that the filter selects is nearer than the hits without being one: it is listed, or
  -- the hits are `k` and it comes before none of them.
  pub record IsNearest (idx : HnswIndex) (query : List F32) (k : ℕ) (filter : Option Filter)
      (results : List SearchResult) : Type 0 where
    pub answer : IsAnswer idx query k filter results
    pub nearest :
        (n : ℕ) (node : Node)
        → get_elem? idx.nodes n ≡ some node
        → node.deleted ≡ false
        → selects filter node.payload ≡ true
        → Listed n answer.hits
          ⊎ ((length answer.hits ≡ k)
              × All
                  (λ h.
                    NotBefore cmp_candidate h
                      (record { distance = far idx.metric query node; node = n }))
                  answer.hits)

  -- The links of the lowest layer connect the arena, and the index knows that a node is live.
  pub record IsConnected (idx : HnswIndex) : Type 0 where
    pub based : (n : ℕ) (node : Node) → get_elem? idx.nodes n ≡ some node → HasLayer idx 0 n
    pub reached : (a b : ℕ) → HasLayer idx 0 a → HasLayer idx 0 b → Reaches idx 0 a b
    pub entered :
        (n : ℕ) (node : Node)
        → get_elem? idx.nodes n ≡ some node
        → node.deleted ≡ false
        → (entry : ℕ) × (idx.entry_point ≡ some entry)
    pub counted :
        (n : ℕ) (node : Node)
        → get_elem? idx.nodes n ≡ some node
        → node.deleted ≡ false
        → idx.live_count ≢ 0

  candidate :
      (d d' : F32) (n n' : ℕ)
      → d ≡ d'
      → n ≡ n'
      → ◌≡◌ {A = Candidate}
          (record { distance = d; node = n })
          (record { distance = d'; node = n' })
  candidate d d' n n' e f = rw (e, f) refl

  pub same_hit :
      (idx : HnswIndex) (query : List F32) (filter : Option Filter) (c : Candidate) (n : ℕ)
      (node : Node)
      → c.node ≡ n
      → get_elem? idx.nodes n ≡ some node
      → IsHit idx query filter c
      → c ≡ record { distance = far idx.metric query node; node = n }
  same_hit idx query filter c n node same at hit =
      let its : get_elem? idx.nodes n ≡ some hit.node = rw same at hit.at in
      let same_node : hit.node ≡ node = ground (arith, its, at) in
      candidate c.distance (far idx.metric query node) c.node n (rw same_node at hit.measured) same

  pub to_results-ok :
      (idx : HnswIndex) (query : List F32) (filter : Option Filter) (hits : List Candidate)
      → All (IsHit idx query filter) hits
      → (results : List SearchResult) × (to_results idx hits ≡ ok results)
  unfolding to_results node_at
  to_results-ok idx query filter [] right = ([], refl)
  to_results-ok idx query filter (c ∷ cs) right =
      let (rest, run) = to_results-ok idx query filter cs right.1 in
      (record { id = right.0.node.id; distance = c.distance } ∷ rest, simp (right.0.at, run))

  module _ (floats : FloatOrder p) (idx : HnswIndex) (query : List F32)
      (filter : Option Filter) where
    -- Hits in order, no node twice.
    pub record IsFound (found : List Candidate) : Type 0 where
      pub right : All (IsHit idx query filter) found
      pub sorted : IsSorted cmp_candidate found
      pub apart : Pairwise Apart found

    -- The first `k` of the hits found.
    abbrev pub cut-IsAnswer :
        (k : ℕ) (found : List Candidate) (results : List SearchResult)
        → to_results idx (take k found) ≡ ok results
        → IsFound found
        → IsAnswer idx query k filter results
    cut-IsAnswer k found results named f = record {
      hits = take k found;
      named = named;
      right = All-take _ k found f.right;
      sorted = take-IsSorted cmp_candidate (cmp_candidate-IsTotalOrder floats) k found f.sorted;
      apart = take-Pairwise Apart k found f.apart;
      short = length-take-le k found;
    }

    -- The first `k` of the hits found, where every hit is found.
    pub cut-IsNearest :
        (k : ℕ) (found : List Candidate) (results : List SearchResult)
        → to_results idx (take k found) ≡ ok results
        → IsFound found
        → ((n : ℕ) (node : Node)
            → get_elem? idx.nodes n ≡ some node
            → node.deleted ≡ false
            → selects filter node.payload ≡ true
            → Listed n found)
        → IsNearest idx query k filter results
    cut-IsNearest k found results named f whole = record {
      answer = cut-IsAnswer k found results named f;
      nearest = λ n node at live selected.
          elim (Listed-take (IsHit idx query filter) k found n f.sorted f.right
            (whole n node at live selected)) [
              | inl listed ↦ inl listed
              | inr (size, (c, same, hit, behind)) ↦
                  inr (size, rw (same_hit idx query filter c n node same at hit) at behind)
            ];
    }
