-- ===== src/Hnsw/Descent.antt =====
-- The greedy descent on one layer, `greedy_closest`, and its rounds.
use Prim.Native.Nat.Ordering.{lt}
use vexdb.Prelude.{
  ℕ, zero, suc, ◌≤◌, ◌<◌, true, false, some, List, [], ◌∷◌, ◌≡◌, refl, arith, length, get_elem?,
  All, Bool-cases, ◌⊎◌, inl, inr, if◌then◌else◌,
}
use vexdb.Prelude.Order.{is_lt}
use vexdb.Platform.{Platform}
use vexdb.Platform.Laws.{FloatOrder}
use vexdb.Error.{ok, ◌>>=◌}
use vexdb.Distance.Metric.{DistanceMetric}
use vexdb.Hnsw.{HnswIndex, Node, neighbors_at}
use vexdb.Hnsw.Trace.{TraceSink}
use vexdb.Hnsw.Greedy.{Climb, climb_round, climb, greedy_closest}
use vexdb.Hnsw.Graph.{HasLayer, IsSized, IsLinked, Stands, far, dist_to_node-far, neighbors_at-list}

module _ ⦃p : Platform⦄ where
  open p use {F32, lt_f, total_cmp}

  module _ (metric : DistanceMetric) (query : List F32) where
    abbrev distance_of : Node → F32
    distance_of = far metric query

    -- How many nodes are closer than `d`.
    closer : List Node → F32 → ℕ
    closer [] d = 0
    closer (node ∷ nodes) d =
        let rest = closer nodes d in
        if is_lt (total_cmp (distance_of node) d) then suc rest else rest

    closer-le : (nodes : List Node) (d : F32) → closer nodes d ≤ length nodes
    unfolding closer
    closer-le [] d = omega arith
    closer-le (node ∷ nodes) d = ground (arith, closer-le nodes d)

    module _ (floats : FloatOrder p) where
      open floats use {total}

      closer_mono :
          (nodes : List Node) (d e : F32) → total_cmp d e ≡ lt → closer nodes d ≤ closer nodes e
      unfolding closer
      closer_mono [] d e h = omega arith
      closer_mono (node ∷ nodes) d e h =
          ground (arith, closer_mono nodes d e h, total.lt_trans (distance_of node) d e)

      -- Closer by a node that is there.
      closer-lt :
          (nodes : List Node) (n : ℕ) (node : Node) (e : F32)
          → get_elem? nodes n ≡ some node
          → total_cmp (distance_of node) e ≡ lt
          → closer nodes (distance_of node) < closer nodes e
      unfolding closer
      closer-lt [] n node e at h = cc
      closer-lt (x ∷ nodes) zero node e at h =
          let same : x ≡ node = cc in
          rw same (
            ground (
              arith,
              closer_mono nodes (distance_of node) e h,
              total.cmp_refl (distance_of node),
              h,
            ))
      closer-lt (x ∷ nodes) (suc n) node e at h = ground (
        arith,
        closer-lt nodes n node e at h,
        total.lt_trans (distance_of x) (distance_of node) e,
      )

  module _ (floats : FloatOrder p) (idx : HnswIndex) (w : IsSized idx) (layer : ℕ)
      (links : IsLinked idx layer) (query : List F32) (fits : length query ≡ idx.dim) where
    -- A round that began at the distance `d₀` is closer, or has not moved.
    Moved : F32 → Climb → Type 0
    Moved d₀ c =
        ((c.improved ≡ true) × (total_cmp c.ep_dist d₀ ≡ lt))
        ⊎ ((c.improved ≡ false) × (c.ep_dist ≡ d₀))

    Moved-closer :
        (d₀ : F32) (c : Climb) (n : ℕ) (d : F32)
        → Moved d₀ c
        → lt_f d c.ep_dist ≡ true
        → Moved d₀ (record { ep = n; ep_dist = d; improved = true })
    unfolding Moved
    Moved-closer d₀ c n d (inl (_, before)) h =
        inl (refl, floats.total.lt_trans d c.ep_dist d₀ (floats.lt_total d c.ep_dist h) before)
    Moved-closer d₀ c n d (inr (_, same)) h = inl (refl, rw same at (floats.lt_total d c.ep_dist h))

    Moved-start : (d : F32) (ep : ℕ) → Moved d (record { ep = ep; ep_dist = d; improved = false })
    unfolding Moved
    Moved-start d ep = inr (refl, refl)

    -- The end of a round: no move, or fewer closer nodes than before.
    Moved-end :
        (d₀ : F32) (c : Climb)
        → Stands idx layer query c.ep c.ep_dist
        → Moved d₀ c
        → ((c.improved ≡ false) × (c.ep_dist ≡ d₀))
          ⊎ ((c.improved ≡ true)
              × (total_cmp c.ep_dist d₀ ≡ lt)
              × (closer idx.metric query idx.nodes c.ep_dist
                  < closer idx.metric query idx.nodes d₀))
    unfolding Moved
    Moved-end d₀ c stands (inr still) = inl still
    Moved-end d₀ c stands (inl (improved, h)) =
        let here = stands.there in
        let less =
          closer-lt idx.metric query floats idx.nodes c.ep here.node d₀ here.at
            (rw stands.measured at h) in
        inr (improved, h, rw stands.measured less)

    lt_of_le :
        (a b c : F32) → (a ≡ b) ⊎ (total_cmp a b ≡ lt) → total_cmp b c ≡ lt → total_cmp a c ≡ lt
    lt_of_le a b c (inl same) h = rw same h
    lt_of_le a b c (inr before) h = floats.total.lt_trans a b c before h

    module _ {S : Type 0} (sink : TraceSink S) where
      climb_round-ok :
          (nbs : List ℕ) (d₀ : F32) (c : Climb) (s : S)
          → All (HasLayer idx layer) nbs
          → Stands idx layer query c.ep c.ep_dist
          → Moved d₀ c
          → (c' : Climb) × (s' : S) × (climb_round sink idx query layer nbs c s ≡ ok (c', s'))
            × Stands idx layer query c'.ep c'.ep_dist
            × Moved d₀ c'
      unfolding climb_round
      climb_round-ok [] d₀ c s known stands moved = (c, s, refl, stands, moved)
      climb_round-ok (nb ∷ nbs) d₀ c s known stands moved =
          let d = far idx.metric query known.0.node in
          let at = dist_to_node-far idx w query fits nb known.0.node known.0.at in
          elim (Bool-cases (lt_f d c.ep_dist)) [
            | inl h ↦
                let (c', s', run, stands', moved') =
                  climb_round-ok nbs d₀ (record { ep = nb; ep_dist = d; improved = true })
                    (sink.descent_hop layer c.ep nb d (sink.distance_eval s)) known.1
                    (record { there = known.0; measured = refl })
                    (Moved-closer d₀ c nb d moved h) in
                (c', s', simp (climb_round, at, h, run), stands', moved')
            | inr h ↦
                let (c', s', run, stands', moved') =
                  climb_round-ok nbs d₀ c (sink.distance_eval s) known.1 stands moved in
                (c', s', simp (climb_round, at, h, run), stands', moved')
          ]

      -- With more rounds than there are closer nodes, the climb ends at a node of the layer that is no
      -- farther.
      climb-ok :
          (rounds ep : ℕ) (d : F32) (s : S)
          → Stands idx layer query ep d
          → closer idx.metric query idx.nodes d < rounds
          → (ep' : ℕ) × (d' : F32) × (s' : S) × (climb sink rounds idx query layer ep d s
              ≡ ok ((ep', d'), s'))
            × Stands idx layer query ep' d'
            × ((d' ≡ d) ⊎ (total_cmp d' d ≡ lt))
      unfolding climb
      climb-ok zero ep d s stands h = absurd (omega arith)
      climb-ok (suc rounds) ep d s stands h =
          let start : Climb = record { ep = ep; ep_dist = d; improved = false } in
          let here = stands.there in
          let (c, s₁, round, stands', moved) =
            climb_round-ok here.list d start s
              (links.linked ep here.node here.list here.at here.listed) stands (Moved-start d ep) in
          let nbs : neighbors_at idx ep layer ≡ ok here.list = neighbors_at-list idx ep here in
          elim (Moved-end d c stands' moved) [
            | inl (still, same) ↦
                (c.ep, c.ep_dist, s₁, simp (climb, nbs, round, still, ◌>>=◌), stands', inl same)
            | inr (improved, closer_by, fewer) ↦
                let (ep', d', s', run, stands'', no_farther) =
                  climb-ok rounds c.ep c.ep_dist s₁ stands' (omega (arith, fewer, h)) in
                (
                  ep',
                  d',
                  s',
                  simp (climb, nbs, round, improved, run, ◌>>=◌),
                  stands'',
                  inr (lt_of_le d' c.ep_dist d no_farther closer_by),
                )
          ]

      -- A greedy descent on one layer returns. On an arena whose vectors have the dimension of the index,
      -- where the links of the layer stay on the layer, for a query of that dimension and a start on
      -- the layer at its distance, and where `f32::total_cmp` is a total order that agrees with `<`:
      -- it does not panic, its rounds are enough, and it ends on the layer, with the distance of the
      -- node where it ends, which is that of the start or comes before it.
      pub greedy_closest-ok :
          (ep : ℕ) (d : F32) (s : S)
          → Stands idx layer query ep d
          → (ep' : ℕ) × (d' : F32) × (s' : S) × (greedy_closest sink idx query ep d layer s
              ≡ ok ((ep', d'), s'))
            × Stands idx layer query ep' d'
            × ((d' ≡ d) ⊎ (total_cmp d' d ≡ lt))
      unfolding greedy_closest
      greedy_closest-ok ep d s stands =
          climb-ok (suc (length idx.nodes)) ep d s stands
            (omega (arith, closer-le idx.metric query idx.nodes d))
