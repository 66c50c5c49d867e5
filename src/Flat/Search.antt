-- ===== src/Flat/Search.antt =====
-- `FlatIndex::search_filtered` is exact: the k first matching entries in the order of distance.
use Prim.Native.Nat.{min}
use vexdb.Prelude.{
  ℕ, zero, suc, ◌≤◌, true, false, Option, List, [], ◌∷◌, ◌≡◌, ◌≢◌, refl, sym, arith, map, length,
  take, Bool-cases, inl, inr, ◌==◌, All, All-of_get, take-min,
}
use vexdb.Platform.{Platform}
use vexdb.Platform.Laws.{FloatOrder}
use vexdb.Error.{ok}
use vexdb.Vector
use vexdb.Payload.{Filter}
use vexdb.Index.{SearchResult, selects}
use vexdb.Distance.Metric.{DistanceMetric, distance, measure}
use vexdb.Collections.Heap.{push_all, push, sort}
use vexdb.Collections.Heap.Sorted.{IsSorted, push-IsSorted, length-push_all}
use vexdb.Collections.Heap.Bounded.{offer, offer_step}
use vexdb.Collections.Heap.TopK.{IsTopK, take-sort-IsTopK}
use vexdb.Flat.{FlatIndex, Entry, HeapItem, cmp_item, keep, scan, search_filtered, to_result}
use vexdb.Flat.Invariant.{IsValid}
use vexdb.Flat.ItemOrder.{cmp_item-IsTotalOrder}

module _ ⦃p : Platform⦄ where
  -- The entries that the filter selects, each with its distance, in storage order.
  unfoldable pub candidates :
      DistanceMetric → List p.F32 → Option Filter → List Entry → List HeapItem
  candidates metric query filter [] = []
  candidates metric query filter (e ∷ es) = elim (selects filter e.payload) [
    | false ↦ candidates metric query filter es
    | true ↦
        record { distance = measure metric query (Vector.as_slice e.vector); id = e.id }
        ∷ candidates metric query filter es
  ]

  -- The `k` nearest of them, nearest first, ties by id.
  abbrev pub nearest : FlatIndex → List p.F32 → ℕ → Option Filter → List SearchResult
  nearest idx query k filter =
      map to_result (take k (sort cmp_item (candidates idx.metric query filter idx.entries)))

  length-candidates :
      (m : DistanceMetric) (q : List p.F32) (f : Option Filter) (es : List Entry)
      → length (candidates m q f es) ≤ length es
  unfolding candidates
  length-candidates m q f [] = omega arith
  length-candidates m q f (e ∷ es) = ground (arith, length-candidates m q f es)

  take_nil : (n : ℕ) → take {A = HeapItem} n [] ≡ []
  take_nil zero = refl
  take_nil (suc n) = refl

  distance-measure :
      (m : DistanceMetric) (a b : List p.F32)
      → length a ≡ length b
      → distance m a b ≡ ok (measure m a b)
  unfolding distance
  distance-measure m a b h = ground arith

  abbrev Fits : ℕ → Entry → Type 0
  Fits n e = length e.vector.values ≡ n

  module _ (floats : FloatOrder p) (m : DistanceMetric) (q : List p.F32) (f : Option Filter)
      (cap : ℕ) where
    keep_step :
        (h : List HeapItem) (x : HeapItem)
        → IsSorted cmp_item h
        → keep cap (take cap h) x ≡ take cap (push cmp_item x h)
    unfolding keep offer
    keep_step h x s = offer_step cmp_item (cmp_item-IsTotalOrder floats) cap h x s

    -- The scan, from what a longer sorted list leaves within the bound.
    scan-push_all :
        (es : List Entry) (h : List HeapItem)
        → All (Fits (length q)) es
        → IsSorted cmp_item h
        → scan m q f cap es (take cap h) ≡ ok (take cap (push_all cmp_item h (candidates m q f es)))
    unfolding scan candidates push_all
    scan-push_all [] h fits s = refl
    scan-push_all (e ∷ es) h fits s = elim (Bool-cases (selects f e.payload)) [
      | inl t ↦
          rw (t, scan, candidates)
            (rw (distance-measure m q e.vector.values (sym fits.0)) (
              rw (keep_step h _ s) (
                scan-push_all es (push cmp_item _ h) fits.1
                  (push-IsSorted cmp_item (cmp_item-IsTotalOrder floats) _ h s))))
      | inr t ↦ rw (t, scan, candidates) (scan-push_all es h fits.1 s)
    ]

  nearest_empty :
      (m : DistanceMetric) (q : List p.F32) (f : Option Filter) (k : ℕ) (es : List Entry)
      → length es ≡ 0
      → map to_result (take k (sort cmp_item (candidates m q f es))) ≡ []
  unfolding candidates push_all
  nearest_empty m q f k [] e = rw (take_nil k)
  nearest_empty m q f k (x ∷ es) e = absurd (omega arith)

  module _ (floats : FloatOrder p) (idx : FlatIndex) (w : IsValid idx) (q : List p.F32) (k : ℕ)
      (f : Option Filter) where
    entries-Fits : length q ≡ idx.dim → All (Fits (length q)) idx.entries
    entries-Fits fits = rw fits (All-of_get (Fits idx.dim) idx.entries w.sized)

    search_cut :
        length q ≡ idx.dim
        → scan idx.metric q f (min k (length idx.entries)) idx.entries []
          ≡ ok (take k (sort cmp_item (candidates idx.metric q f idx.entries)))
    search_cut fits =
        let cands = candidates idx.metric q f idx.entries in
        let n = length idx.entries in
        let short : length (sort cmp_item cands) ≤ n = omega (
          arith,
          length-push_all cmp_item [] cands,
          length-candidates idx.metric q f idx.entries,
        ) in
        rw (← take-min k n (sort cmp_item cands) short) (
          rw (take_nil (min k n)) at
            (scan-push_all floats idx.metric q f (min k n) idx.entries [] (entries-Fits fits) tt))

    -- A well-formed index answers a valid query with its nearest matching entries, never an error.
    pub search-nearest :
        k ≢ 0 → length q ≡ idx.dim → search_filtered idx q k f ≡ ok (nearest idx q k f)
    unfolding search_filtered
    search-nearest positive fits = elim (Bool-cases (length idx.entries == 0)) [
      | inl e ↦ ground (arith, nearest_empty idx.metric q f k idx.entries (ground arith))
      | inr ne ↦ ground (arith, search_cut fits)
    ]

    -- Where `f32::total_cmp` is a total order, a well-formed index answers a query of its dimension and
    -- a positive k with the k nearest of the entries that the filter selects, or with all of them if
    -- there are fewer: the results are in the order of distance, ties by id, no selected entry left
    -- out comes before one of them, and the call returns no error and does not panic.
    pub search-IsTopK :
        k ≢ 0
        → length q ≡ idx.dim
        → (best : List HeapItem) × (search_filtered idx q k f ≡ ok (map to_result best))
          × IsTopK cmp_item k (candidates idx.metric q f idx.entries) best
    search-IsTopK positive fits =
        let items = candidates idx.metric q f idx.entries in
        (
          take k (sort cmp_item items),
          search-nearest positive fits,
          take-sort-IsTopK cmp_item (cmp_item-IsTotalOrder floats) k items,
        )
