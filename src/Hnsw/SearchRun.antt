-- ===== src/Hnsw/SearchRun.antt =====
-- `search_inner` on a well-formed graph.
use Prim.Native.Nat.{max}
use vexdb.Prelude.{
  ℕ, zero, suc, ◌+◌, ◌≤◌, ◌<◌, Bool, true, false, not, ◌&&◌, Option, none, some, List, [], ◌≡◌, ◌≢◌,
  refl, arith, length, get_elem?, take, ◌==◌, All, All-imp, All-take, Bool-cases, ◌⊎◌, Option-cases,
  inl, inr, take_of_length-le,
}
use vexdb.Platform.{Platform}
use vexdb.Platform.Laws.{FloatOrder}
use vexdb.Error.{ok, ◌>>=◌}
use vexdb.Payload.{Filter}
use vexdb.Index.{SearchResult, selects}
use vexdb.Hnsw.{HnswIndex, Node, Candidate, node_at}
use vexdb.Hnsw.Trace.{TraceSink}
use vexdb.Hnsw.Search.{descend, admits, to_results, search_inner}
use vexdb.Hnsw.Graph.{
  HasLayer, IsGraph, Stands, Stands-lower, HasLayer-lower, far, dist_to_node-far,
}
use vexdb.Hnsw.Cover.{Listed}
use vexdb.Hnsw.Beam.{IsAdmitted, AreResults}
use vexdb.Hnsw.BeamRun.{search_layer-ok}
use vexdb.Hnsw.Descent.{greedy_closest-ok}
use vexdb.Hnsw.Answer.{
  IsHit, IsAnswer, IsNearest, IsConnected, IsFound, to_results-ok, cut-IsAnswer, cut-IsNearest,
}

module _ ⦃p : Platform⦄ where
  open p use {F32}

  admits-ok :
      (idx : HnswIndex) (filter : Option Filter) (n : ℕ)
      → HasLayer idx 0 n
      → (a : Bool) × (admits idx filter n ≡ ok a)
  unfolding admits node_at
  admits-ok idx filter n here =
      (not here.node.deleted && selects filter here.node.payload, simp (here.at))

  IsAdmitted-IsHit :
      (idx : HnswIndex) (query : List F32) (filter : Option Filter) (c : Candidate)
      → IsAdmitted idx 0 query (admits idx filter) c
      → IsHit idx query filter c
  unfolding admits node_at
  IsAdmitted-IsHit idx query filter c (stands, said) =
      let here = stands.there in
      let both : not here.node.deleted && selects filter here.node.payload ≡ true =
        ground (arith, said, here.at) in
      record {
        node = here.node;
        at = here.at;
        live = ground (arith, both);
        selected = ground (arith, both);
        measured = stands.measured;
      }

  module _ (floats : FloatOrder p) (idx : HnswIndex) (w : IsGraph idx) (query : List F32)
      (fits : length query ≡ idx.dim) {S : Type 0} (sink : TraceSink S) where
    -- The descent from a node of the top layer ends on the layer below the lowest.
    pub descend-ok :
        (base count : ℕ) (at : ℕ × F32) (s : S)
        → Stands idx (base + count) query at.0 at.1
        → (at' : ℕ × F32) × (s' : S) × (descend sink idx query (suc base) count at s ≡ ok (at', s'))
          × Stands idx base query at'.0 at'.1
    unfolding descend
    descend-ok base zero at s stands =
        let e : base + 0 ≡ base = omega arith in (at, s, refl, rw e at stands)
    descend-ok base (suc count) (ep, d) s stands =
        let e : base + suc count ≡ suc base + count = omega arith in
        let here : Stands idx (suc base + count) query ep d = rw e at stands in
        let (ep₁, d₁, s₁, run₁, stands₁, _) =
          greedy_closest-ok floats idx w.vectors (suc base + count) (w.links (suc base + count))
            query fits sink ep d s here in
        let below = HasLayer-lower idx (base + count) ep₁ (omega arith) stands₁.there in
        let (at', s', run, stands') =
          descend-ok base count (ep₁, d₁) s₁
            (Stands-lower idx (suc base + count) (base + count) query ep₁ d₁ below stands₁) in
        (at', s', simp (descend, run₁, run, ◌>>=◌), stands')

    -- What a search finds before it cuts the candidates to `k`.
    record Finds (k ef : ℕ) (filter : Option Filter) (results : List SearchResult) : Type 0 where
      pub found : List Candidate
      pub named : to_results idx (take k found) ≡ ok results
      pub kept : AreResults idx 0 query (admits idx filter) (max ef k) found
      pub few : length found ≤ length idx.nodes
      pub whole :
          IsConnected idx
          → length found < max ef k
          → (n : ℕ) (node : Node) → get_elem? idx.nodes n ≡ some node
          → node.deleted ≡ false
          → selects filter node.payload ≡ true
          → Listed n found

    nothing-Finds :
        (k ef : ℕ) (filter : Option Filter)
        → (idx.entry_point ≡ none) ⊎ (idx.live_count ≡ 0)
        → Finds k ef filter []
    unfolding to_results
    nothing-Finds k ef filter idle = record {
      found = [];
      named = rw (take_of_length-le {A = Candidate} k [] (omega arith)) refl;
      kept = record { admitted = tt; sorted = tt; apart = tt; bounded = omega arith };
      few = omega arith;
      whole = λ connected room n node at live selected.
          let (entry, entered) = connected.entered n node at live in
          elim idle [ inl empty ↦ cc | inr dead ↦ absurd (connected.counted n node at live dead) ];
    }

    admits-true :
        (filter : Option Filter) (n : ℕ) (node : Node)
        → get_elem? idx.nodes n ≡ some node
        → node.deleted ≡ false
        → selects filter node.payload ≡ true
        → admits idx filter n ≡ ok true
    unfolding admits node_at
    admits-true filter n node at live selected = simp (at, live, selected)

    search_inner-Finds :
        (k ef : ℕ) (filter : Option Filter) (s : S)
        → k ≢ 0
        → (results : List SearchResult) × (s' : S) × (search_inner sink idx query k ef filter s
            ≡ ok (results, s'))
          × Finds k ef filter results
    unfolding search_inner
    search_inner-Finds k ef filter s positive =
        let not_zero : k == 0 ≡ false = ground (arith, positive) in
        let fits_test : length query == idx.dim ≡ true = ground (arith, fits) in
        elim (Option-cases idx.entry_point) [
          | inl empty ↦
              ([], s, simp (not_zero, fits_test, empty), nothing-Finds k ef filter (inl empty))
          | inr (entry, at) ↦ elim (Bool-cases (idx.live_count == 0)) [
            | inl dead ↦ (
              [],
              s,
              simp (not_zero, fits_test, at, dead),
              nothing-Finds k ef filter (inr (ground (arith, dead))),
            )
            | inr live ↦
                let top = w.entry entry (0 + idx.max_layer) at (omega arith) in
                let d = far idx.metric query top.node in
                let measured = dist_to_node-far idx w.vectors query fits entry top.node top.at in
                let ((ep, ep_d), s₂, run, stands) =
                  descend-ok 0 idx.max_layer (entry, d) (sink.entry entry d (sink.distance_eval s))
                    (record { there = top; measured = refl }) in
                let (found, s₃, beam, r, few, whole) =
                  search_layer-ok idx w.vectors 0 (w.links 0) query fits (admits idx filter)
                    (admits-ok idx filter) floats (max ef k) sink
                    (record { distance = ep_d; node = ep }) s₂ stands (ground (arith, positive)) in
                let right : All (IsHit idx query filter) (take k found) =
                  All-take _ k found
                    (All-imp (IsAdmitted-IsHit idx query filter) found r.admitted) in
                let (results, named) = to_results-ok idx query filter (take k found) right in
                (
                  results,
                  s₃,
                  simp (not_zero, fits_test, at, live, measured, run, beam, named, ◌>>=◌),
                  record {
                    found = found;
                    named = named;
                    kept = r;
                    few = few;
                    whole = λ connected room n node its alive selected.
                        whole room n
                          (connected.reached ep n stands.there (connected.based n node its))
                          (admits-true filter n node its alive selected);
                  },
                )
          ]
        ]

    Finds-IsFound :
        (k ef : ℕ) (filter : Option Filter) (results : List SearchResult)
        (f : Finds k ef filter results)
        → IsFound floats idx query filter f.found
    Finds-IsFound k ef filter results f = record {
      right = All-imp (IsAdmitted-IsHit idx query filter) f.found f.kept.admitted;
      sorted = f.kept.sorted;
      apart = f.kept.apart;
    }

    -- A search of a well-formed graph returns. Where every vector of the arena has the dimension of the
    -- index, every layer's links stay on the layer and the entry point has every layer up to the highest,
    -- and `f32::total_cmp` is a total order that agrees with `<`: for a query of the index's dimension
    -- and a positive k, any `ef` and any filter, the search does not panic and its rounds are enough,
    -- and its results name live nodes that the filter selects, each with its distance, in the order of
    -- distance, ties by position, no node twice, at most k.
    pub search_inner-ok :
        (k ef : ℕ) (filter : Option Filter) (s : S)
        → k ≢ 0
        → (results : List SearchResult) × (s' : S) × (search_inner sink idx query k ef filter s
            ≡ ok (results, s'))
          × IsAnswer idx query k filter results
    search_inner-ok k ef filter s positive =
        let (results, s', run, finds) = search_inner-Finds k ef filter s positive in
        (
          results,
          s',
          run,
          cut-IsAnswer floats idx query filter k finds.found results finds.named
              (Finds-IsFound k ef filter results finds),
        )

    -- A wide search of a connected graph is exact. On the conditions of `search_inner-ok`, where also
    -- the links of layer 0 lead from each of its nodes to every node of the arena, the index has an entry
    -- point if a node is live and then counts a live node, and `ef` is above the number of nodes: of the
    -- live nodes that the filter selects, each is among the hits, or there are k hits and it comes
    -- before none of them.
    pub search_inner-IsNearest :
        (k ef : ℕ) (filter : Option Filter) (s : S)
        → k ≢ 0
        → IsConnected idx
        → length idx.nodes < ef
        → (results : List SearchResult) × (s' : S) × (search_inner sink idx query k ef filter s
            ≡ ok (results, s'))
          × IsNearest idx query k filter results
    search_inner-IsNearest k ef filter s positive connected wide =
        let (results, s', run, finds) = search_inner-Finds k ef filter s positive in
        (
          results,
          s',
          run,
          cut-IsNearest floats idx query filter k finds.found results finds.named
              (Finds-IsFound k ef filter results finds)
              (finds.whole connected (omega (arith, finds.few, wide))),
        )
