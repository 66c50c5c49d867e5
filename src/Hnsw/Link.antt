-- ===== src/Hnsw/Link.antt =====
-- `link_back` and `shrink_neighbors` on a well-formed graph.
use native.Mathlib.Nat.{mod-le}
use vexdb.Prelude.{
  ℕ, zero, suc, ◌≤◌, List, [], ◌∷◌, ◌++◌, ◌≡◌, refl, arith, length, All, All-append, Bool-cases,
  ◌⊎◌, inl, inr, ltb, false, ◌*◌, ◌%◌, ◌+◌,
}
use vexdb.Platform.{Platform}
use vexdb.Error.{Outcome, ok, panic, ◌>>=◌}
use vexdb.Collections.Heap.{sort}
use vexdb.Collections.Heap.Kept.{All-push_all}
use vexdb.Hnsw.{HnswIndex, Candidate, cmp_candidate, node_at, has_room}
use vexdb.Hnsw.Insert.{measured, shrink_neighbors, link_back, link_all, m_max_of}
use vexdb.Hnsw.Graph.{HasLayer, HasLayer-lt, neighbors_at-list}
use vexdb.Hnsw.Selection.{dist_to_node-ok, select_neighbors-Held}
use vexdb.Hnsw.Rewire.{
  IsWoven, IsRewired, IsRewired-refl, IsRewired-trans, IsRewired-All, set_neighbors-ok,
}

module _ ⦃p : Platform⦄ where
  open p use {F32, usize_max}

  -- Twice `m` neighbours, the most that a node keeps on layer 0, take more than isize::MAX bytes.
  abbrev pub Overfull : HnswIndex → Type 0
  Overfull idx = has_room (idx.config.m * 2) ≡ false

  pub has_room-lower : (m n : ℕ) → m ≤ n → has_room m ≡ false → has_room n ≡ false
  unfolding has_room
  has_room-lower m n low full = ground arith

  pub m_max_of-Overfull :
      (idx : HnswIndex) (layer : ℕ) → has_room (m_max_of idx layer) ≡ false → Overfull idx
  m_max_of-Overfull idx zero full =
      has_room-lower (idx.config.m * 2 % (usize_max + 1)) (idx.config.m * 2)
        (mod-le (idx.config.m * 2) (usize_max + 1)) full
  m_max_of-Overfull idx (suc layer) full =
      let upper : m_max_of idx (suc layer) ≡ idx.config.m = ground arith in
      has_room-lower idx.config.m (idx.config.m * 2) (omega arith) (rw upper at full)

  abbrev pub On : HnswIndex → ℕ → Candidate → Type 0
  On idx layer c = HasLayer idx layer c.node

  -- What a step of the linking comes to: a panic where a list of neighbours has no room, or a
  -- well-formed graph on the same nodes.
  abbrev pub Rewires : Type 0 → HnswIndex → Outcome HnswIndex → Type 0
  Rewires full idx outcome =
      (full × (outcome ≡ panic))
      ⊎ ((idx' : HnswIndex) × (outcome ≡ ok idx') × IsWoven idx' × IsRewired idx idx')

  module _ (idx : HnswIndex) (w : IsWoven idx) (layer : ℕ) where
    measured-ok :
        (base : List F32) (nbs : List ℕ)
        → length base ≡ idx.dim
        → All (HasLayer idx layer) nbs
        → (cs : List Candidate) × (measured idx base nbs ≡ ok cs) × All (On idx layer) cs
    unfolding measured
    measured-ok base [] fits known = ([], refl, tt)
    measured-ok base (nb ∷ nbs) fits known =
        let (d, at) = dist_to_node-ok idx w.vectors base nb fits (HasLayer-lt idx nb known.0) in
        let (cs, run, on) = measured-ok base nbs fits known.1 in
        (record { distance = d; node = nb } ∷ cs, simp (at, run, ◌>>=◌), (known.0, on))

    -- A list cut to the bound is of nodes of the layer, if there is room for the bound.
    shrink_neighbors-ok :
        (n m_max : ℕ)
        → HasLayer idx layer n
        → ((has_room m_max ≡ false) × (shrink_neighbors idx n layer m_max ≡ panic))
          ⊎ ((out : List ℕ) × (shrink_neighbors idx n layer m_max ≡ ok out)
              × All (HasLayer idx layer) out)
    unfolding shrink_neighbors node_at
    shrink_neighbors-ok n m_max there =
        let nbs = neighbors_at-list idx n there in
        let known = (w.links layer).linked n there.node there.list there.at there.listed in
        let (cs, run, on) =
          measured-ok there.node.vector.values there.list (w.vectors.sized n there.node there.at)
            known in
        let sorted : All (On idx layer) (sort cmp_candidate cs) =
          All-push_all cmp_candidate (On idx layer) [] cs tt on in
        elim (select_neighbors-Held idx w.vectors (HasLayer idx layer) (HasLayer-lt idx)
          (sort cmp_candidate cs) m_max sorted) [
            | inl (full, select) ↦ inl (full, simp (there.at, nbs, run, select, ◌>>=◌))
            | inr (out, select, held, _) ↦ inr (out, simp (there.at, nbs, run, select, ◌>>=◌), held)
          ]

  -- The link back to a new node of the layer.
  link_back-ok :
      (idx : HnswIndex)
      → IsWoven idx
      → (new_pos layer m_max nb : ℕ) → HasLayer idx layer new_pos
      → HasLayer idx layer nb
      → Rewires (has_room m_max ≡ false) idx (link_back new_pos layer m_max idx nb)
  unfolding link_back
  link_back-ok idx w new_pos layer m_max nb new there =
      let nbs = neighbors_at-list idx nb there in
      let known = (w.links layer).linked nb there.node there.list there.at there.listed in
      let pushed = there.list ++ (new_pos ∷ []) in
      let (idx₁, run₁, w₁, r₁) =
        set_neighbors-ok idx w nb layer pushed there
          (All-append (HasLayer idx layer) there.list (new_pos ∷ []) known (new, tt)) in
      elim (Bool-cases (ltb m_max (length pushed))) [
        | inr fits ↦ inr (idx₁, simp (nbs, run₁, fits, ◌>>=◌), w₁, r₁)
        | inl over ↦
            let there₁ = (r₁.still layer nb there).after in
            elim (shrink_neighbors-ok idx₁ w₁ layer nb m_max there₁) [
              | inl (full, shrunk) ↦ inl (full, simp (nbs, run₁, over, shrunk, ◌>>=◌))
              | inr (out, shrunk, held) ↦
                  let (idx₂, run₂, w₂, r₂) = set_neighbors-ok idx₁ w₁ nb layer out there₁ held in
                  inr (
                    idx₂,
                    simp (nbs, run₁, over, shrunk, run₂, ◌>>=◌),
                    w₂,
                    IsRewired-trans idx idx₁ idx₂ r₁ r₂,
                  )
            ]
      ]

  pub link_all-ok :
      (idx : HnswIndex)
      → IsWoven idx
      → (new_pos layer m_max : ℕ) → HasLayer idx layer new_pos
      → (chosen : List ℕ) → All (HasLayer idx layer) chosen
      → Rewires (has_room m_max ≡ false) idx (link_all new_pos layer m_max idx chosen)
  unfolding link_all
  link_all-ok idx w new_pos layer m_max new [] known = inr (idx, refl, w, IsRewired-refl idx)
  link_all-ok idx w new_pos layer m_max new (nb ∷ chosen) known =
      elim (link_back-ok idx w new_pos layer m_max nb new known.0) [
        | inl (full, stop) ↦ inl (full, simp (link_all, stop, ◌>>=◌))
        | inr (idx₁, run₁, w₁, r₁) ↦
            elim (link_all-ok idx₁ w₁ new_pos layer m_max (r₁.still layer new_pos new).after chosen
              (IsRewired-All idx idx₁ layer chosen r₁ known.1)) [
                | inl (full, stop) ↦ inl (full, simp (link_all, run₁, stop, ◌>>=◌))
                | inr (idx₂, run₂, w₂, r₂) ↦ inr (
                  idx₂,
                  simp (link_all, run₁, run₂, ◌>>=◌),
                  w₂,
                  IsRewired-trans idx idx₁ idx₂ r₁ r₂,
                )
              ]
      ]
