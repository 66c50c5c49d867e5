-- ===== src/Hnsw/Exact.antt =====
-- `search_exact`: the scan of the whole arena.
use vexdb.Prelude.{
  ◌%◌, ℕ, zero, suc, ◌+◌, ◌<◌, true, false, not, ◌&&◌, Option, some, List, [], ◌∷◌, ◌≡◌, ◌≢◌, refl,
  sym, arith, length, get_elem?, take, ◌==◌, All, All-of_get, All-take, Bool-cases,
  take_of_length-le, ◌⊎◌, inl, inr,
}
use vexdb.Platform.{Platform}
use vexdb.Platform.Laws.{FloatOrder}
use vexdb.Error.{ok, panic, ◌>>=◌}
use vexdb.Payload.{Filter}
use vexdb.Index.{SearchResult, selects}
use vexdb.Collections.Heap.{push, push_all, sort}
use vexdb.Collections.Heap.Sorted.{IsSorted, push-IsSorted, sort-IsSorted}
use vexdb.Collections.Heap.Bounded.{peek_cons, offer, offer_step}
use vexdb.Collections.Heap.Kept.{Pairwise, push_all-Pairwise, All-push_all}
use vexdb.Hnsw.{HnswIndex, Node, Candidate, cmp_candidate, has_room}
use vexdb.Hnsw.Search.{keep_exact, scan_exact, search_exact}
use vexdb.Hnsw.Graph.{IsSized, far, dist_to_node-far}
use vexdb.Hnsw.CandidateOrder.{cmp_candidate-IsTotalOrder}
use vexdb.Hnsw.Beam.{Apart}
use vexdb.Hnsw.Cover.{Listed, Listed-push_all}
use vexdb.Hnsw.Answer.{IsHit, IsFound, IsNearest, to_results-ok, cut-IsNearest}

module _ ⦃p : Platform⦄ where
  open p use {F32, usize_max}

  -- The hits among the nodes from position `pos` on, in arena order.
  hits_from : HnswIndex → List F32 → Option Filter → ℕ → List Node → List Candidate
  hits_from idx query filter pos [] = []
  hits_from idx query filter pos (node ∷ nodes) =
      elim (not node.deleted && selects filter node.payload) [
        | false ↦ hits_from idx query filter (suc pos) nodes
        | true ↦
            record { distance = far idx.metric query node; node = pos }
            ∷ hits_from idx query filter (suc pos) nodes
      ]

  module _ (floats : FloatOrder p) (idx : HnswIndex) (w : IsSized idx) (query : List F32)
      (fits : length query ≡ idx.dim) (filter : Option Filter) where
    -- The nodes from position `pos` on are those of the arena.
    abbrev IsRest : ℕ → List Node → Type 0
    IsRest pos nodes =
        (i : ℕ) (node : Node)
        → get_elem? nodes i ≡ some node
        → get_elem? idx.nodes (pos + i) ≡ some node

    arena-IsRest : IsRest 0 idx.nodes
    arena-IsRest i node at = let e : 0 + i ≡ i = omega arith in rw e at

    IsRest-tail : (pos : ℕ) (x : Node) (xs : List Node) → IsRest pos (x ∷ xs) → IsRest (suc pos) xs
    IsRest-tail pos x xs rest i node at =
        let e : suc pos + i ≡ pos + suc i = omega arith in rw e (rest (suc i) node at)

    IsRest-head :
        (pos : ℕ) (x : Node) (xs : List Node)
        → IsRest pos (x ∷ xs)
        → get_elem? idx.nodes pos ≡ some x
    IsRest-head pos x xs rest = let e : pos + 0 ≡ pos = omega arith in rw e at (rest 0 x refl)

    hits_from-IsHit :
        (pos : ℕ) (nodes : List Node)
        → IsRest pos nodes
        → All (IsHit idx query filter) (hits_from idx query filter pos nodes)
    unfolding hits_from
    hits_from-IsHit pos [] rest = tt
    hits_from-IsHit pos (node ∷ nodes) rest =
        let later = hits_from-IsHit (suc pos) nodes (IsRest-tail pos node nodes rest) in
        elim (Bool-cases (not node.deleted && selects filter node.payload)) [
          | inl t ↦
              rw (t, hits_from)
                (
                  record {
                    node = node;
                    at = IsRest-head pos node nodes rest;
                    live = ground (arith, t);
                    selected = ground (arith, t);
                    measured = refl;
                  },
                  later,
                )
          | inr t ↦ rw (t, hits_from) later
        ]

    -- A hit at a position before those is none of them.
    hits_from-Apart :
        (c : Candidate) (pos : ℕ) (nodes : List Node)
        → c.node < pos
        → All (Apart c) (hits_from idx query filter pos nodes)
    unfolding hits_from
    hits_from-Apart c pos [] h = tt
    hits_from-Apart c pos (node ∷ nodes) h =
        let later = hits_from-Apart c (suc pos) nodes (omega arith) in
        elim (Bool-cases (not node.deleted && selects filter node.payload)) [
          | inl t ↦ rw (t, hits_from) (λ e. omega (arith, e, h), later)
          | inr t ↦ rw (t, hits_from) later
        ]

    hits_from-Pairwise :
        (pos : ℕ) (nodes : List Node) → Pairwise Apart (hits_from idx query filter pos nodes)
    unfolding hits_from
    hits_from-Pairwise pos [] = tt
    hits_from-Pairwise pos (node ∷ nodes) =
        let later = hits_from-Pairwise (suc pos) nodes in
        elim (Bool-cases (not node.deleted && selects filter node.payload)) [
          | inl t ↦
              rw (t, hits_from)
                (
                  hits_from-Apart (record { distance = far idx.metric query node; node = pos })
                      (suc pos) nodes (omega arith),
                  later,
                )
          | inr t ↦ rw (t, hits_from) later
        ]

    hits_from-Listed :
        (pos : ℕ) (nodes : List Node) (i : ℕ) (node : Node)
        → get_elem? nodes i ≡ some node
        → node.deleted ≡ false
        → selects filter node.payload ≡ true
        → Listed (pos + i) (hits_from idx query filter pos nodes)
    unfolding hits_from
    hits_from-Listed pos [] i node at live selected = cc
    hits_from-Listed pos (x ∷ xs) zero node at live selected =
        let same : x ≡ node = cc in
        let t : not x.deleted && selects filter x.payload ≡ true =
          rw same (simp (live, selected)) in
        rw (t, hits_from) (inl (omega arith))
    hits_from-Listed pos (x ∷ xs) (suc i) node at live selected =
        let e : suc pos + i ≡ pos + suc i = omega arith in
        let later : Listed (pos + suc i) (hits_from idx query filter (suc pos) xs) =
          rw e at (hits_from-Listed (suc pos) xs i node at live selected) in
        elim (Bool-cases (not x.deleted && selects filter x.payload)) [
          | inl t ↦ rw (t, hits_from) (inr later)
          | inr t ↦ rw (t, hits_from) later
        ]

    module _ (k : ℕ) (positive : k ≢ 0) where
      keep_exact-offer :
          (h : List Candidate) (x : Candidate) → keep_exact k h x ≡ ok (offer cmp_candidate k h x)
      unfolding keep_exact offer
      keep_exact-offer [] x = ground (arith, positive)
      keep_exact-offer (y ∷ ys) x =
          let (top, at) = peek_cons cmp_candidate y ys in ground (arith, at)

      keep_step :
          (h : List Candidate) (x : Candidate)
          → IsSorted cmp_candidate h
          → keep_exact k (take k h) x ≡ ok (take k (push cmp_candidate x h))
      keep_step h x s =
          rw (keep_exact-offer (take k h) x)
            (rw (offer_step cmp_candidate (cmp_candidate-IsTotalOrder floats) k h x s) refl)

      scan-push_all :
          (pos : ℕ) (nodes : List Node) (h : List Candidate)
          → IsRest pos nodes
          → IsSorted cmp_candidate h
          → scan_exact idx query filter k pos nodes (take k h)
            ≡ ok (take k (push_all cmp_candidate h (hits_from idx query filter pos nodes)))
      unfolding scan_exact hits_from push_all
      scan-push_all pos [] h rest s = refl
      scan-push_all pos (node ∷ nodes) h rest s =
          let c : Candidate = record { distance = far idx.metric query node; node = pos } in
          let at = IsRest-head pos node nodes rest in
          let measured = dist_to_node-far idx w query fits pos node at in
          let later = IsRest-tail pos node nodes rest in
          elim (Bool-cases (not node.deleted && selects filter node.payload)) [
            | inl t ↦
                rw (t, scan_exact, hits_from)
                  (rw measured (
                    rw (keep_step h c s) (
                      scan-push_all (suc pos) nodes (push cmp_candidate c h) later
                        (push-IsSorted cmp_candidate (cmp_candidate-IsTotalOrder floats) c h s))))
            | inr t ↦ rw (t, scan_exact, hits_from) (scan-push_all (suc pos) nodes h later s)
          ]

      all_hits : List Candidate
      all_hits = sort cmp_candidate (hits_from idx query filter 0 idx.nodes)

      all_hits-IsFound : IsFound floats idx query filter all_hits
      unfolding all_hits
      all_hits-IsFound = record {
        right =
            All-push_all cmp_candidate (IsHit idx query filter) []
              (hits_from idx query filter 0 idx.nodes) tt
              (hits_from-IsHit 0 idx.nodes arena-IsRest);
        sorted =
            sort-IsSorted cmp_candidate (cmp_candidate-IsTotalOrder floats)
              (hits_from idx query filter 0 idx.nodes);
        apart =
            push_all-Pairwise Apart cmp_candidate (λ x y d e. d (sym e)) []
              (hits_from idx query filter 0 idx.nodes)
              (All-of_get _ (hits_from idx query filter 0 idx.nodes) (λ i a at. tt)) tt
              (hits_from-Pairwise 0 idx.nodes);
      }

      pub search_exact-IsNearest :
          ((has_room ((k + 1) % (usize_max + 1)) ≡ false)
            × (search_exact idx query k filter ≡ panic))
          ⊎ ((results : List SearchResult) × (search_exact idx query k filter ≡ ok results)
              × IsNearest idx query k filter results)
      unfolding search_exact all_hits
      search_exact-IsNearest =
          let not_zero : k == 0 ≡ false = ground (arith, positive) in
          let fits_test : length query == idx.dim ≡ true = ground (arith, fits) in
          let found = all_hits-IsFound in
          let scan : scan_exact idx query filter k 0 idx.nodes [] ≡ ok (take k all_hits) =
            rw (take_of_length-le {A = Candidate} k [] (omega arith)) at
              (scan-push_all 0 idx.nodes [] arena-IsRest tt) in
          let (results, named) =
            to_results-ok idx query filter (take k all_hits)
              (All-take (IsHit idx query filter) k all_hits found.right) in
          elim (Bool-cases (has_room ((k + 1) % (usize_max + 1)))) [
            | inr full ↦ inl (full, simp (not_zero, fits_test, full, ◌>>=◌))
            | inl room ↦ inr (
              results,
              simp (not_zero, fits_test, room, scan, named, ◌>>=◌),
              cut-IsNearest floats idx query filter k all_hits results named found
                  (λ n node at live selected.
                    let e : 0 + n ≡ n = omega arith in
                    Listed-push_all n [] (hits_from idx query filter 0 idx.nodes)
                      (inr (rw e at (hits_from-Listed 0 idx.nodes n node at live selected)))),
            )
          ]
