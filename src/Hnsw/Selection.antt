-- ===== src/Hnsw/Selection.antt =====
-- Neighbour selection, `select_neighbors`.
use vexdb.Prelude.{
  ℕ, ◌≤◌, ◌<◌, Bool, true, false, List, [], ◌∷◌, ◌++◌, map, ◌≡◌, refl, arith, length, leb, All,
  All-imp, All-append, Bool-cases, ◌⊎◌, inl, inr, length-append, length-map,
}
use vexdb.Platform.{Platform}
use vexdb.Error.{Outcome, ok, panic}
use vexdb.Collections.Vec.{get_elem?_of_lt}
use vexdb.Distance.Metric.{distance, measure}
use vexdb.Hnsw.{HnswIndex, Node, Candidate, node_at, dist_to_node, has_room}
use vexdb.Hnsw.Graph.{IsSized}
use vexdb.Hnsw.Insert.{dominated, select_loop, backfill, select_neighbors}

lt_of_leb : (m n : ℕ) → leb m n ≡ false → n < m
lt_of_leb m n h = ground arith

module _ ⦃p : Platform⦄ where
  open p use {F32, lt_f}

  -- What a selection comes to.
  abbrev pub Selects : (ℕ → Type 0) → Outcome (List ℕ) → ℕ → Type 0
  Selects P outcome m =
      ((has_room m ≡ false) × (outcome ≡ panic))
      ⊎ ((out : List ℕ) × (outcome ≡ ok out) × All P out × (length out ≤ m))

  module _ (idx : HnswIndex) (w : IsSized idx) where
    -- The candidate names a node of the arena.
    abbrev pub Known : Candidate → Type 0
    Known c = c.node < length idx.nodes

    abbrev pub Inside : ℕ → Type 0
    Inside n = n < length idx.nodes

    node_at-ok :
        (n : ℕ)
        → n < length idx.nodes
        → (node : Node) × (node_at idx n ≡ ok node) × (length node.vector.values ≡ idx.dim)
    unfolding node_at
    node_at-ok n h =
        let (node, at) = get_elem?_of_lt idx.nodes n h in (node, rw at, w.sized n node at)

    pub dist_to_node-ok :
        (v : List F32) (n : ℕ)
        → length v ≡ idx.dim
        → n < length idx.nodes
        → (d : F32) × (dist_to_node idx v n ≡ ok d)
    unfolding dist_to_node distance
    dist_to_node-ok v n fits h =
        let (node, at, size) = node_at-ok n h in
        (measure idx.metric v node.vector.values, ground (arith, at))

    dominated-ok :
        (v : List F32) (d : F32) (selected : List Candidate)
        → length v ≡ idx.dim
        → All Known selected
        → (b : Bool) × (dominated idx v d selected ≡ ok b)
    unfolding dominated
    dominated-ok v d [] fits known = (false, refl)
    dominated-ok v d (s ∷ selected) fits known =
        let (x, at) = dist_to_node-ok v s.node fits known.0 in
        elim (Bool-cases (lt_f x d)) [
          | inl h ↦ (true, simp (dominated, at, h))
          | inr h ↦
              let (b, rest) = dominated-ok v d selected fits known.1 in
              (b, simp (dominated, at, h, rest))
        ]

    module _ (P : ℕ → Type 0) (inside_of : (n : ℕ) → P n → Inside n) where
      abbrev pub Held : Candidate → Type 0
      Held c = P c.node

      -- The walk returns at most `m` of the candidates, and prunes others of them.
      select_loop-ok :
          (m : ℕ) (cs selected : List Candidate) (pruned : List ℕ)
          → All Held cs
          → All Held selected
          → All P pruned
          → length selected ≤ m
          → (selected' : List Candidate) × (pruned' : List ℕ) × (select_loop idx m cs selected
                pruned
              ≡ ok (selected', pruned'))
            × All Held selected'
            × All P pruned'
            × (length selected' ≤ m)
      unfolding select_loop
      select_loop-ok m [] selected pruned cs_known known inside short =
          (selected, pruned, refl, known, inside, short)
      select_loop-ok m (c ∷ cs) selected pruned cs_known known inside short =
          elim (Bool-cases (leb m (length selected))) [
            | inl full ↦ (selected, pruned, simp (select_loop, full), known, inside, short)
            | inr room ↦
                let (node, at, size) = node_at-ok c.node (inside_of c.node cs_known.0) in
                let (b, dom) =
                  dominated-ok node.vector.values c.distance selected size
                    (All-imp (λ s held. inside_of s.node held) selected known) in
                elim (Bool-cases b) [
                  | inl t ↦
                      let (s', p', run, k', i', l') =
                        select_loop-ok m cs selected (pruned ++ (c.node ∷ [])) cs_known.1 known
                          (All-append P pruned (c.node ∷ []) inside (cs_known.0, tt)) short in
                      (s', p', simp (select_loop, room, at, dom, t, run), k', i', l')
                  | inr t ↦
                      let longer : length (selected ++ (c ∷ [])) ≤ m = omega (
                        arith,
                        length-append {0} selected (c ∷ []),
                        lt_of_leb m (length selected) room,
                      ) in
                      let (s', p', run, k', i', l') =
                        select_loop-ok m cs (selected ++ (c ∷ [])) pruned cs_known.1
                          (All-append Held selected (c ∷ []) known (cs_known.0, tt)) inside
                          longer in
                      (s', p', simp (select_loop, room, at, dom, t, run), k', i', l')
                ]
          ]

      backfill-Held :
          (m : ℕ) (out pruned : List ℕ)
          → All P out
          → All P pruned
          → length out ≤ m
          → All P (backfill m out pruned) × (length (backfill m out pruned) ≤ m)
      unfolding backfill
      backfill-Held m out [] inside others short = (inside, short)
      backfill-Held m out (n ∷ pruned) inside others short =
          elim (Bool-cases (leb m (length out))) [
            | inl full ↦ simp (full, backfill) (inside, short)
            | inr room ↦
                simp (room, backfill)
                  (backfill-Held m (out ++ (n ∷ [])) pruned
                    (All-append P out (n ∷ []) inside (others.0, tt)) others.1
                    (omega (arith, length-append {0} out (n ∷ []), lt_of_leb m (length out) room)))
          ]

      Held-nodes : (cs : List Candidate) → All Held cs → All P (map (λ c. c.node) cs)
      Held-nodes [] h = tt
      Held-nodes (c ∷ cs) h = (h.0, Held-nodes cs h.1)

      -- Of candidates with a property, at most `m` are selected, each with the property, or there is no
      -- room for `m` candidates.
      pub select_neighbors-Held :
          (cs : List Candidate) (m : ℕ) → All Held cs → Selects P (select_neighbors idx cs m) m
      unfolding select_neighbors
      select_neighbors-Held cs m known = elim (Bool-cases (has_room m)) [
        | inr full ↦ inl (full, simp (full, select_neighbors))
        | inl room ↦
            let (s', p', run, s_known, p_inside, short) =
              select_loop-ok m cs [] [] known tt tt (omega arith) in
            let (inside, bound) =
              backfill-Held m (map (λ c. c.node) s') p' (Held-nodes s' s_known) p_inside
                (omega (arith, length-map s' (λ c. c.node))) in
            inr (
              backfill m (map (λ c. c.node) s') p',
              simp (room, select_neighbors, run),
              inside,
              bound,
            )
      ]

    pub select_neighbors-ok :
        (cs : List Candidate) (m : ℕ) → All Known cs → Selects Inside (select_neighbors idx cs m) m
    select_neighbors-ok cs m known = select_neighbors-Held Inside (λ n h. h) cs m known
