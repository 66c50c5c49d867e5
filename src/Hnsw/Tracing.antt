-- ===== src/Hnsw/Tracing.antt =====
-- `search_traced` beyond the search: naming what was recorded never fails.
use vexdb.Prelude.{
  ℕ, Option, none, some, List, [], ◌∷◌, ◌≡◌, refl, length, take, ◌==◌, All, Bool-cases,
  Option-cases, inl, inr,
}
use Prim.Native.Nat.{max}
use vexdb.Platform.{Platform}
use vexdb.Error.{Outcome, ok, err, ◌>>=◌, invalid_k, dimension_mismatch}
use vexdb.Error.Yield.{Yields, Any, >>=-Yields}
use vexdb.Payload.{Filter}
use vexdb.Index.{SearchResult}
use vexdb.Collections.Vec.{get_elem?_of_lt}
use vexdb.Hnsw.{HnswIndex, Candidate, node_at, dist_to_node}
use vexdb.Hnsw.Trace.{
  RecordingSink, SearchTrace, DescentHop, BeamEdge, recording_sink, recording_start,
}
use vexdb.Hnsw.Layer.{search_layer}
use vexdb.Hnsw.Search.{
  id_of, descend, admits, to_results, search_inner, name_hops, name_edges, name_entry, to_trace,
}
use vexdb.Hnsw.Errors.{node_at-Yields}
use vexdb.Hnsw.Recorded.{
  Inside, IsRecorded, start-IsRecorded, entry-IsRecorded, eval-IsRecorded, dist_to_node-Inside,
  Ended, descend-IsRecorded, Found, search_layer-IsRecorded,
}

module _ ⦃p : Platform⦄ where
  open p use {F32}

  Yields-ok : {A : Type 0} (P : A → Type 0) (o : Outcome A) {a : A} → o ≡ ok a → Yields P o → P a
  Yields-ok P o e h = rw e at h

  abbrev Returns : {A : Type 0} → Outcome A → Type 0
  Returns {A} o = (a : A) × (o ≡ ok a)

  >>=-Returns :
      {A B : Type 0} (o : Outcome A) (f : A → Outcome B) {a : A}
      → o ≡ ok a
      → Returns (f a)
      → Returns (o >>= f)
  >>=-Returns o f e h = rw e h

  module _ (idx : HnswIndex) where
    id_of-ok : (n : ℕ) → Inside idx n → Returns (id_of idx n)
    unfolding node_at
    id_of-ok n inside = let (node, at) = get_elem?_of_lt idx.nodes n inside in (node.id, rw at refl)

    name_hops-ok :
        (hs : List (DescentHop ℕ))
        → All (λ h. Inside idx h.from × Inside idx h.to) hs
        → Returns (name_hops idx hs)
    unfolding name_hops
    name_hops-ok [] inside = ([], refl)
    name_hops-ok (h ∷ hs) inside =
        let (from, left) = id_of-ok h.from inside.0.0 in
        let (to, right) = id_of-ok h.to inside.0.1 in
        let (rest, named) = name_hops-ok hs inside.1 in
        >>=-Returns (id_of idx h.from) _ left
          (>>=-Returns (id_of idx h.to) _ right (>>=-Returns (name_hops idx hs) _ named (_, refl)))

    name_edges-ok :
        (es : List (BeamEdge ℕ))
        → All (λ e. Inside idx e.from × Inside idx e.to) es
        → Returns (name_edges idx es)
    unfolding name_edges
    name_edges-ok [] inside = ([], refl)
    name_edges-ok (e ∷ es) inside =
        let (from, left) = id_of-ok e.from inside.0.0 in
        let (to, right) = id_of-ok e.to inside.0.1 in
        let (rest, named) = name_edges-ok es inside.1 in
        >>=-Returns (id_of idx e.from) _ left
          (>>=-Returns (id_of idx e.to) _ right (>>=-Returns (name_edges idx es) _ named (_, refl)))

    name_entry-ok :
        (entry : Option (ℕ × F32))
        → ((n : ℕ) (d : F32) → entry ≡ some (n, d) → Inside idx n)
        → Returns (name_entry idx entry)
    unfolding name_entry
    name_entry-ok none inside = (none, refl)
    name_entry-ok (some (n, d)) inside =
        let (id, at) = id_of-ok n (inside n d refl) in (some id, rw at refl)

    -- A recording of nodes of the arena is named.
    pub to_trace-ok :
        (s : RecordingSink) → IsRecorded idx s → (trace : SearchTrace) × (to_trace idx s ≡ ok trace)
    unfolding to_trace
    to_trace-ok s r =
        let (entry, e) = name_entry-ok s.entry r.entered in
        let (hops, h) = name_hops-ok s.descent r.hops in
        let (edges, b) = name_edges-ok s.beam r.edges in
        >>=-Returns (name_entry idx s.entry) _ e (
          >>=-Returns (name_hops idx s.descent) _ h
            (>>=-Returns (name_edges idx s.beam) _ b (_, refl)))

    admits-Yields : (filter : Option Filter) (n : ℕ) → Yields Any (admits idx filter n)
    unfolding admits
    admits-Yields filter n =
        >>=-Yields Any Any (node_at idx n) _ (node_at-Yields idx n) λ node _. tt

    to_results-Yields : (cs : List Candidate) → Yields Any (to_results idx cs)
    unfolding to_results
    to_results-Yields [] = tt
    to_results-Yields (c ∷ cs) =
        >>=-Yields Any Any (node_at idx c.node) _ (node_at-Yields idx c.node)
          λ node _. >>=-Yields Any Any (to_results idx cs) _ (to_results-Yields cs) λ rest _. tt

    abbrev Answered : List SearchResult × RecordingSink → Type 0
    Answered (results, s) = IsRecorded idx s

    -- The recording of a search that returns is of nodes of the arena.
    pub search_inner-IsRecorded :
        (query : List F32) (k ef : ℕ) (filter : Option Filter) {results : List SearchResult}
        {sink : RecordingSink}
        → search_inner recording_sink idx query k ef filter recording_start ≡ ok (results, sink)
        → IsRecorded idx sink
    unfolding search_inner
    search_inner-IsRecorded query k ef filter {results} {sink} run = elim (Bool-cases (k == 0)) [
      | inl h ↦ let no : err invalid_k ≡ ok (results, sink) = rw h at run in cc
      | inr h ↦ elim (Bool-cases (length query == idx.dim)) [
        | inr ne ↦
            let no : err (dimension_mismatch idx.dim (length query)) ≡ ok (results, sink) =
              rw (h, ne) at run in
            cc
        | inl same ↦ elim (Option-cases idx.entry_point) [
          | inl empty ↦
              let done : ok ([], recording_start) ≡ ok (results, sink) =
                rw (h, same, empty) at run in
              let e : recording_start ≡ sink = cc in rw (← e) (start-IsRecorded idx)
          | inr (entry, entered) ↦ elim (Bool-cases (idx.live_count == 0)) [
            | inl dead ↦
                let done : ok ([], recording_start) ≡ ok (results, sink) =
                  rw (h, same, entered, dead) at run in
                let e : recording_start ≡ sink = cc in rw (← e) (start-IsRecorded idx)
            | inr live ↦ Yields-ok Answered _ (rw (h, same, entered, live) at run) (
                >>=-Yields (λ _. Inside idx entry) Answered (dist_to_node idx query entry) _
                  (dist_to_node-Inside idx query entry)
                  λ d inside.
                    let begun =
                      entry-IsRecorded idx entry d _ inside
                        (eval-IsRecorded idx recording_start (start-IsRecorded idx)) in
                    >>=-Yields (Ended idx query) Answered
                      (descend recording_sink idx query 1 idx.max_layer (entry, d) _) _
                      (descend-IsRecorded idx query 1 idx.max_layer (entry, d) _ begun)
                      λ ((ep, d'), s₂) r₂.
                        >>=-Yields (Found idx query (admits idx filter) (admits-Yields filter))
                          Answered
                          (search_layer recording_sink idx query
                            (record { distance = d'; node = ep }) (max ef k) 0 (admits idx filter)
                            s₂)
                          _
                          (search_layer-IsRecorded idx query (admits idx filter)
                            (admits-Yields filter) _ (max ef k) 0 s₂ r₂)
                          λ (found, s₃) r₃.
                            >>=-Yields Any Answered (to_results idx (take k found)) _
                              (to_results-Yields (take k found)) λ results' _. r₃)
          ]
        ]
      ]
    ]
