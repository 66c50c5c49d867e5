-- ===== src/Hnsw/Observation.antt =====
-- `search_inner` under different sinks.
use vexdb.Prelude.{
  ℕ, zero, suc, arith, Bool, false, ◌&&◌, ◌||◌, Option, List, [], ◌∷◌, ◌≡◌, refl, length, get_elem?,
  take, ltb, leb, ◌==◌, replicate, Bool-cases, Option-cases, inl, inr, ◌∙◌,
}
use vexdb.Platform.{Platform}
use vexdb.Error.{VexError, Outcome, ok, err, panic, stuck, ◌>>=◌, expect}
use vexdb.Payload.{Filter}
use vexdb.Index.{SearchResult}
use vexdb.Hnsw.{HnswIndex, Candidate, dist_to_node, neighbors_at}
use vexdb.Hnsw.Trace.{TraceSink, RecordingSink, noop_sink, recording_sink, recording_start}
use vexdb.Hnsw.Greedy.{Climb, climb_round, climb, greedy_closest}
use vexdb.Hnsw.Layer.{Beam, worst_of, evaluate, expand, beam_loop, search_layer}
use vexdb.Hnsw.Search.{
  descend, admits, to_results, search_inner, search_filtered_with_ef, search_traced, to_trace,
}

-- The outcome of a call without the state of its sink.
unfoldable pub value_of : {A S : Type 0} → Outcome (A × S) → Outcome A
value_of m = m >>= λ (a, s). ok a

-- After the same outcome, with calls that agree for every value, the outcomes agree.
bind_same :
    {A B S T : Type 0} (m : Outcome A) (f : A → Outcome (B × S)) (g : A → Outcome (B × T))
    → ((a : A) → value_of (f a) ≡ value_of (g a))
    → value_of (m >>= f) ≡ value_of (m >>= g)
unfolding value_of
bind_same (ok a) f g h = h a
bind_same (err e) f g h = refl
bind_same panic f g h = refl
bind_same stuck f g h = refl

bind_agree :
    {A B S T : Type 0} (m : Outcome (A × S)) (m' : Outcome (A × T)) (f : A × S → Outcome (B × S))
    (g : A × T → Outcome (B × T))
    → value_of m ≡ value_of m'
    → ((a : A) (s : S) (t : T) → value_of (f (a, s)) ≡ value_of (g (a, t)))
    → value_of (m >>= f) ≡ value_of (m' >>= g)
unfolding value_of
bind_agree (ok (a, s)) (ok (b, t)) f g e h = let same : a ≡ b = cc in rw same (h b s t)
bind_agree (err x) (err y) f g e h = let same : x ≡ y = cc in rw same
bind_agree panic panic f g e h = refl
bind_agree stuck stuck f g e h = refl
bind_agree (ok _) (err _) f g e h = cc
bind_agree (ok _) panic f g e h = cc
bind_agree (ok _) stuck f g e h = cc
bind_agree (err _) (ok _) f g e h = cc
bind_agree (err _) panic f g e h = cc
bind_agree (err _) stuck f g e h = cc
bind_agree panic (ok _) f g e h = cc
bind_agree panic (err _) f g e h = cc
bind_agree panic stuck f g e h = cc
bind_agree stuck (ok _) f g e h = cc
bind_agree stuck (err _) f g e h = cc
bind_agree stuck panic f g e h = cc

module _ ⦃p : Platform⦄ {S T : Type 0} (sink : TraceSink S) (sink' : TraceSink T) where
  open p use {F32, lt_f}

  climb_round-agree :
      (idx : HnswIndex) (query : List F32) (layer : ℕ) (nbs : List ℕ) (c : Climb) (s : S) (t : T)
      → value_of (climb_round sink idx query layer nbs c s)
        ≡ value_of (climb_round sink' idx query layer nbs c t)
  unfolding climb_round value_of
  climb_round-agree idx query layer [] c s t = refl
  climb_round-agree idx query layer (nb ∷ nbs) c s t =
      bind_same (dist_to_node idx query nb) _ _ (λ d. elim (Bool-cases (lt_f d c.ep_dist)) [
        | inl h ↦ rw h (climb_round-agree idx query layer nbs _ _ _)
        | inr h ↦ rw h (climb_round-agree idx query layer nbs c _ _)
      ])

  climb-agree :
      (rounds : ℕ) (idx : HnswIndex) (query : List F32) (layer ep : ℕ) (d : F32) (s : S) (t : T)
      → value_of (climb sink rounds idx query layer ep d s)
        ≡ value_of (climb sink' rounds idx query layer ep d t)
  unfolding climb value_of
  climb-agree zero idx query layer ep d s t = refl
  climb-agree (suc rounds) idx query layer ep d s t =
      bind_same (neighbors_at idx ep layer) _ _ (λ nbs.
        bind_agree _ _ _ _ (climb_round-agree idx query layer nbs _ s t) (λ c s' t'.
          elim (Bool-cases c.improved) [
            | inl h ↦ rw h (climb-agree rounds idx query layer c.ep c.ep_dist s' t')
            | inr h ↦ rw h
          ]))

  descend-agree :
      (idx : HnswIndex) (query : List F32) (low count : ℕ) (at : ℕ × F32) (s : S) (t : T)
      → value_of (descend sink idx query low count at s)
        ≡ value_of (descend sink' idx query low count at t)
  unfolding descend greedy_closest value_of
  descend-agree idx query low zero at s t = refl
  descend-agree idx query low (suc count) (ep, d) s t =
      bind_agree _ _ _ _ (climb-agree _ idx query _ ep d s t)
        (λ at' s' t'. descend-agree idx query low count at' s' t')

  evaluate-agree :
      (ef : ℕ) (admit : ℕ → Outcome Bool) (from nb : ℕ) (d : F32) (b : Beam) (s : S) (t : T)
      → value_of (evaluate sink ef admit from nb d b s)
        ≡ value_of (evaluate sink' ef admit from nb d b t)
  unfolding evaluate value_of
  evaluate-agree ef admit from nb d b s t =
      elim (Bool-cases (ltb (length b.best) ef || lt_f d (worst_of b.best))) [
        | inr h ↦ rw h
        | inl h ↦
            rw h (
              bind_same (admit nb) _ _ (λ ad. elim (Bool-cases ad) [ inl e ↦ rw e | inr e ↦ rw e ]))
      ]

  expand-agree :
      (idx : HnswIndex) (query : List F32) (ef : ℕ) (admit : ℕ → Outcome Bool) (from : ℕ)
      (nbs : List ℕ) (b : Beam) (s : S) (t : T)
      → value_of (expand sink idx query ef admit from nbs b s)
        ≡ value_of (expand sink' idx query ef admit from nbs b t)
  unfolding expand value_of
  expand-agree idx query ef admit from [] b s t = refl
  expand-agree idx query ef admit from (nb ∷ nbs) b s t =
      bind_same (expect (get_elem? b.visited nb)) _ _ (λ seen. elim (Bool-cases seen) [
        | inl h ↦ rw h (expand-agree idx query ef admit from nbs b s t)
        | inr h ↦ rw h (
            bind_same (dist_to_node idx query nb) _ _ (λ d.
              bind_agree _ _ _ _ (evaluate-agree ef admit from nb d _ _ _)
                (λ b' s' t'. expand-agree idx query ef admit from nbs b' s' t')))
      ])

  beam_loop-agree :
      (rounds : ℕ) (idx : HnswIndex) (query : List F32) (ef layer : ℕ) (admit : ℕ → Outcome Bool)
      (frontier : List Candidate) (b : Beam) (s : S) (t : T)
      → value_of (beam_loop sink rounds idx query ef layer admit frontier b s)
        ≡ value_of (beam_loop sink' rounds idx query ef layer admit frontier b t)
  unfolding beam_loop value_of
  beam_loop-agree zero idx query ef layer admit [] b s t = refl
  beam_loop-agree zero idx query ef layer admit (c ∷ frontier) b s t = refl
  beam_loop-agree (suc rounds) idx query ef layer admit [] b s t = refl
  beam_loop-agree (suc rounds) idx query ef layer admit (c ∷ frontier) b s t =
      elim (Bool-cases (leb ef (length b.best) && lt_f (worst_of b.best) c.distance)) [
        | inl h ↦ rw (h, beam_loop) refl
        | inr h ↦
            rw (h, beam_loop)
              (bind_same (neighbors_at idx c.node layer) _ _ (λ nbs.
                bind_agree _ _ _ _ (expand-agree idx query ef admit c.node nbs _ s t) (λ b' s' t'.
                  beam_loop-agree rounds idx query ef layer admit b'.frontier b' s' t')))
      ]

  search_layer-agree :
      (idx : HnswIndex) (query : List F32) (start : Candidate) (ef layer : ℕ)
      (admit : ℕ → Outcome Bool) (s : S) (t : T)
      → value_of (search_layer sink idx query start ef layer admit s)
        ≡ value_of (search_layer sink' idx query start ef layer admit t)
  unfolding search_layer value_of
  search_layer-agree idx query start ef layer admit s t =
      bind_same (expect (get_elem? (replicate (length idx.nodes) false) start.node)) _ _ (λ seen.
        bind_same (admit start.node) _ _ (λ ad.
          bind_agree _ _ _ _ (beam_loop-agree _ idx query ef layer admit _ _ s t)
            (λ b' s' t'. refl)))

  -- A search gives the same outcome under any two sinks, from any states of them: the same results, or
  -- the same error or panic.
  pub search_inner-agree :
      (idx : HnswIndex) (query : List F32) (k ef : ℕ) (filter : Option Filter) (s : S) (t : T)
      → value_of (search_inner sink idx query k ef filter s)
        ≡ value_of (search_inner sink' idx query k ef filter t)
  unfolding search_inner value_of
  search_inner-agree idx query k ef filter s t = elim (Bool-cases (k == 0)) [
    | inl h ↦ rw (h, search_inner)
    | inr h ↦ elim (Bool-cases (length query == idx.dim)) [
      | inr h' ↦ rw (h, h', search_inner)
      | inl h' ↦ elim (Option-cases idx.entry_point) [
        | inl e ↦ rw (h, h', e, search_inner)
        | inr (entry, e) ↦ elim (Bool-cases (idx.live_count == 0)) [
          | inl z ↦ rw (h, h', e, z, search_inner)
          | inr z ↦
              rw (h, h', e, z, search_inner)
                (bind_same (dist_to_node idx query entry) _ _ (λ d.
                  bind_agree _ _ _ _ (descend-agree idx query 1 idx.max_layer (entry, d) _ _)
                    (λ at s' t'.
                      bind_agree _ _ _ _
                        (search_layer-agree idx query _ _ 0 (admits idx filter) s' t')
                        (λ found s'' t''.
                          bind_same (to_results idx (take k found)) _ _ (λ results. refl)))))
        ]
      ]
    ]
  ]

module _ ⦃p : Platform⦄ where
  open p use {F32}

  value_of_ok :
      {A S : Type 0} (m : Outcome (A × S)) {a : A} → value_of m ≡ ok a → (s : S) × (m ≡ ok (a, s))
  unfolding value_of
  value_of_ok (ok (b, s)) {a} h = let same : b ≡ a = cc in (s, rw same)
  value_of_ok (err e) h = cc
  value_of_ok panic h = cc
  value_of_ok stuck h = cc

  -- Where the plain search returns results, the traced search comes to the same results: what is left
  -- of it is to name the nodes of the recorded run, and the results are not touched by that.
  pub search_traced-search_filtered_with_ef :
      (idx : HnswIndex) (query : List F32) (k ef : ℕ) (filter : Option Filter)
      {results : List SearchResult}
      → search_filtered_with_ef idx query k ef filter ≡ ok results
      → (sink : RecordingSink) × (search_inner recording_sink idx query k ef filter recording_start
          ≡ ok (results, sink))
        × (search_traced idx query k ef filter
            ≡ (to_trace idx sink >>= λ trace. ok (results, trace)))
  unfolding search_filtered_with_ef search_traced value_of
  search_traced-search_filtered_with_ef idx query k ef filter h =
      let agree =
        search_inner-agree recording_sink noop_sink idx query k ef filter recording_start tt in
      let (sink, run) =
        value_of_ok (search_inner recording_sink idx query k ef filter recording_start)
          (agree ∙ h) in
      (sink, run, rw run)

  value_of_err :
      {A S : Type 0} (m : Outcome (A × S)) {e : VexError} → value_of m ≡ err e → m ≡ err e
  unfolding value_of
  value_of_err (ok (b, s)) h = cc
  value_of_err (err e') {e} h = let same : e' ≡ e = ground (arith, h) in rw same refl
  value_of_err panic h = cc
  value_of_err stuck h = cc

  -- Where the plain search returns an error, the traced search returns the same.
  pub search_traced_err :
      (idx : HnswIndex) (query : List F32) (k ef : ℕ) (filter : Option Filter) {e : VexError}
      → search_filtered_with_ef idx query k ef filter ≡ err e
      → search_traced idx query k ef filter ≡ err e
  unfolding search_filtered_with_ef search_traced value_of
  search_traced_err idx query k ef filter h =
      let agree =
        search_inner-agree recording_sink noop_sink idx query k ef filter recording_start tt in
      let run =
        value_of_err (search_inner recording_sink idx query k ef filter recording_start)
          (agree ∙ h) in
      rw run refl
