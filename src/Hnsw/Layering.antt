-- ===== src/Hnsw/Layering.antt =====
-- `link_layer` and `link_layers` on a well-formed graph.
use vexdb.Hnsw.Link.{On, Overfull, Rewires, has_room-lower, m_max_of-Overfull, link_all-ok}
use vexdb.Prelude.{
  ℕ, zero, suc, ◌≤◌, ◌<◌, true, List, [], ◌∷◌, ◌≡◌, refl, sym, ◌∙◌, arith, length, All, All-imp,
  ◌⊎◌, inl, inr, ◌*◌,
}
use vexdb.Platform.{Platform}
use vexdb.Platform.Laws.{FloatOrder}
use vexdb.Error.{ok, panic, ◌>>=◌}
use vexdb.Hnsw.{HnswIndex, Candidate}
use vexdb.Hnsw.Trace.{noop_sink}
use vexdb.Hnsw.Layer.{search_layer}
use vexdb.Hnsw.Insert.{select_neighbors, set_neighbors, link_all, m_max_of, link_layer, link_layers}
use vexdb.Hnsw.Graph.{HasLayer, HasLayer-lt, HasLayer-lower, Stands, Stands-lower, Reaches}
use vexdb.Hnsw.Graph.Reaches.{here}
use vexdb.Hnsw.Beam.{AreResults}
use vexdb.Hnsw.Cover.{Listed}
use vexdb.Hnsw.BeamRun.{search_layer-ok}
use vexdb.Hnsw.Selection.{select_neighbors-Held}
use vexdb.Hnsw.Rewire.{
  IsWoven, IsRewired, IsRewired-trans, IsRewired-All, IsRewired-Stands, set_neighbors-ok,
}

module _ ⦃p : Platform⦄ where
  open p use {F32, usize_max}

  module _ (floats : FloatOrder p) (query : List F32) (new_pos : ℕ) where
    -- The nearest of the candidates, which are some: the start can be reached and is admitted.
    some_found :
        (idx : HnswIndex) (layer ef : ℕ) (start : Candidate) (found : List Candidate)
        → 1 ≤ ef
        → AreResults idx layer query (λ n. ok true) ef found
        → (length found < ef
            → (n : ℕ) → Reaches idx layer start.node n
            → ok true ≡ ok true
            → Listed n found)
        → (c : Candidate) × (cs : List Candidate) × (found ≡ c ∷ cs)
          × Stands idx layer query c.node c.distance
    some_found idx layer ef start [] positive r whole =
        elim (whole positive start.node here refl) [ ]
    some_found idx layer ef start (c ∷ cs) positive r whole = (c, cs, refl, r.admitted.0.0)

    link_layer_steps :
        (idx idx₁ idx₂ : HnswIndex) (layer : ℕ) (at : ℕ × F32) (found : List Candidate)
        (chosen : List ℕ) (c : Candidate) (cs : List Candidate) {s : Unit {0}}
        → search_layer noop_sink idx query
            (record { distance = at.1; node = at.0 })
            idx.config.ef_construction
            layer
            (λ n. ok true)
            tt
          ≡ ok (found, s)
        → select_neighbors idx found idx.config.m ≡ ok chosen
        → link_all new_pos layer (m_max_of idx layer) idx chosen ≡ ok idx₁
        → set_neighbors idx₁ new_pos layer chosen ≡ ok idx₂
        → found ≡ c ∷ cs
        → link_layer idx query new_pos layer at ≡ ok (idx₂, (c.node, c.distance))
    unfolding link_layer
    link_layer_steps idx idx₁ idx₂ layer at found chosen c cs beam select run₁ run₂ e =
        simp (beam, select, run₁, run₂, ◌>>=◌) (rw e refl)

    link_layer-ok :
        (idx : HnswIndex)
        → IsWoven idx
        → length query ≡ idx.dim
        → 1 ≤ idx.config.ef_construction
        → (layer : ℕ) (at : ℕ × F32) → HasLayer idx layer new_pos
        → Stands idx layer query at.0 at.1
        → (Overfull idx × (link_layer idx query new_pos layer at ≡ panic))
          ⊎ ((idx' : HnswIndex) × (at' : ℕ × F32) × (link_layer idx query new_pos layer at
                ≡ ok (idx', at'))
              × IsWoven idx'
              × IsRewired idx idx'
              × Stands idx' layer query at'.0 at'.1)
    unfolding link_layer
    link_layer-ok idx w fits positive layer (ep, d) new stands =
        let start : Candidate = record { distance = d; node = ep } in
        let (found, s, beam, r, _, whole) =
          search_layer-ok idx w.vectors layer (w.links layer) query fits (λ n. ok true)
            (λ n there. (true, refl)) floats idx.config.ef_construction noop_sink start tt stands
            positive in
        let (c, cs, e, near) =
          some_found idx layer idx.config.ef_construction start found positive r whole in
        let on : All (On idx layer) found = All-imp (λ x good. good.0.there) found r.admitted in
        elim (select_neighbors-Held idx w.vectors (HasLayer idx layer) (HasLayer-lt idx) found
          idx.config.m on) [
            | inl (full, select) ↦ inl (
              has_room-lower idx.config.m (idx.config.m * 2) (omega arith) full,
              simp (beam, select, ◌>>=◌),
            )
            | inr (chosen, select, held, _) ↦
                elim (link_all-ok idx w new_pos layer (m_max_of idx layer) new chosen held) [
                  | inl (full, stop) ↦
                      inl (m_max_of-Overfull idx layer full, simp (beam, select, stop, ◌>>=◌))
                  | inr (idx₁, run₁, w₁, r₁) ↦
                      let new₁ = (r₁.still layer new_pos new).after in
                      let (idx₂, run₂, w₂, r₂) =
                        set_neighbors-ok idx₁ w₁ new_pos layer chosen new₁
                          (IsRewired-All idx idx₁ layer chosen r₁ held) in
                      let through = IsRewired-trans idx idx₁ idx₂ r₁ r₂ in
                      inr (
                        idx₂,
                        (c.node, c.distance),
                        link_layer_steps idx idx₁ idx₂ layer (ep, d) found chosen c cs beam select
                            run₁ run₂ e,
                        w₂,
                        through,
                        IsRewired-Stands idx idx₂ layer query c.node c.distance through near,
                      )
                ]
          ]

    pub link_layers-ok :
        (idx : HnswIndex)
        → IsWoven idx
        → length query ≡ idx.dim
        → 1 ≤ idx.config.ef_construction
        → (top : ℕ) (at : ℕ × F32) → HasLayer idx top new_pos
        → Stands idx top query at.0 at.1
        → Rewires (Overfull idx) idx (link_layers idx query new_pos (suc top) at)
    unfolding link_layers
    link_layers-ok idx w fits positive zero at new stands =
        elim (link_layer-ok idx w fits positive zero at new stands) [
          | inl (full, stop) ↦ inl (full, simp (link_layers, stop, ◌>>=◌))
          | inr (idx₁, at₁, run₁, w₁, r₁, _) ↦ inr (idx₁, simp (link_layers, run₁, ◌>>=◌), w₁, r₁)
        ]
    link_layers-ok idx w fits positive (suc top) at new stands =
        elim (link_layer-ok idx w fits positive (suc top) at new stands) [
          | inl (full, stop) ↦ inl (full, simp (link_layers, stop, ◌>>=◌))
          | inr (idx₁, at₁, run₁, w₁, r₁, stands₁) ↦
              let new₁ = (r₁.still (suc top) new_pos new).after in
              let low = HasLayer-lower idx₁ top at₁.0 (omega arith) stands₁.there in
              elim (link_layers-ok idx₁ w₁ (fits ∙ sym r₁.same_dim) (rw r₁.same_config positive) top
                at₁ (HasLayer-lower idx₁ top new_pos (omega arith) new₁)
                (Stands-lower idx₁ (suc top) top query at₁.0 at₁.1 low stands₁)) [
                  | inl (full, stop) ↦
                      inl (rw (← r₁.same_config) full, simp (link_layers, run₁, stop, ◌>>=◌))
                  | inr (idx₂, run₂, w₂, r₂) ↦ inr (
                    idx₂,
                    simp (link_layers, run₁, run₂, ◌>>=◌),
                    w₂,
                    IsRewired-trans idx idx₁ idx₂ r₁ r₂,
                  )
                ]
        ]
