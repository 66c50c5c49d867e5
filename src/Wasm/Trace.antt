-- ===== src/Wasm/Trace.antt =====
-- `search_trace` observes a search and does not alter it.
use vexdb.Prelude.{
  ℕ, Option, List, [], ◌∷◌, String, ◌≡◌, ◌≢◌, ◌∙◌, refl, arith, get_elem?, Option-cases, inl, inr,
}
use mathlib.Core.Option.{get_or}
use vexdb.Platform.{Platform}
use vexdb.Error
use vexdb.Error.{VexError, VectorId, Outcome}
use vexdb.Payload.{Filter}
use vexdb.Index.{SearchResult}
use vexdb.Collections.Dict
use vexdb.Collections.Dict.{nat_eq}
use vexdb.Hnsw
use vexdb.Hnsw.{HnswIndex}
use vexdb.Hnsw.Trace.{RecordingSink, SearchTrace, recording_sink, recording_start}
use vexdb.Hnsw.Search.{search_inner, search_filtered_with_ef, search_traced, to_trace}
use vexdb.Hnsw.Observation.{search_traced-search_filtered_with_ef, search_traced_err}
use vexdb.Hnsw.Tracing.{to_trace-ok, search_inner-IsRecorded}
use vexdb.Persist.Any.{hnsw}
use vexdb.Attempt.{Attempt, ok, err, lift, ◌>>=◌}
use vexdb.Wasm.{
  Failure, Hit, TracedHits, Inner, Texts, engine, parse_filter, to_hits, search, search_trace,
}

module _ ⦃p : Platform⦄ where
  open p use {F32}

  lift_ok : {A : Type 0} (o : Outcome A) (a : A) → lift engine o ≡ ok a → o ≡ Error.ok a
  lift_ok (Error.ok b) a h = let same : b ≡ a = cc in rw same refl
  lift_ok (Error.err f) a h = cc
  lift_ok Error.panic a h = cc
  lift_ok Error.stuck a h = cc

  lift_err :
      {A : Type 0} (o : Outcome A) (e : Failure)
      → lift engine o ≡ err e
      → (f : VexError) × (o ≡ Error.err f)
  lift_err (Error.ok b) e h = cc
  lift_err (Error.err f) e h = (f, refl)
  lift_err Error.panic e h = cc
  lift_err Error.stuck e h = cc

  module _ (texts : Texts) (h : HnswIndex) (query : List F32) (k : ℕ) (ef : Option ℕ)
      (filter_json : Option String) where
    abbrev inner_of : Inner
    inner_of = record { index = hnsw h }

    -- What the two calls do with a parsed filter.
    abbrev searched : Option Filter → Attempt Failure (List Hit)
    searched filter =
        lift engine (search_filtered_with_ef h query k (get_or ef h.config.ef_search) filter)
        >>= λ results. lift engine (to_hits inner_of results)

    abbrev traced : Option Filter → Attempt Failure TracedHits
    traced filter =
        lift engine (search_traced h query k (get_or ef h.config.ef_search) filter)
        >>= λ (results, trace). lift engine (to_hits inner_of results) >>= λ hits.
            ok (record { hits = hits; trace = trace })

    -- The run of the search with this filter that records what it does.
    abbrev Records : Option Filter → List SearchResult → RecordingSink → Type 0
    Records filter results sink =
        search_inner recording_sink h query k (get_or ef h.config.ef_search) filter recording_start
        ≡ Error.ok (results, sink)

    -- The traced call returns the hits, and the trace of the recorded run with the filter that was parsed.
    abbrev pub Traces :
        Attempt Failure (Option Filter) → List Hit → Attempt Failure TracedHits → Type 0
    Traces given hits traced_call =
        (filter : Option Filter) × (results : List SearchResult) × (sink : RecordingSink)
        × (trace : SearchTrace) × (given ≡ ok filter)
        × Records filter results sink
        × (to_hits inner_of results ≡ Error.ok hits)
        × (to_trace h sink ≡ Error.ok trace)
        × (traced_call ≡ ok (record { hits = hits; trace = trace }))

    -- The trace search comes to the hits, or to the failure, of the search.
    abbrev Follows :
        Attempt Failure (Option Filter)
        → Attempt Failure (List Hit)
        → Attempt Failure TracedHits
        → Type 0
    Follows given plain trace =
        ((hits : List Hit) → plain ≡ ok hits → Traces given hits trace)
        × ((e : Failure) → plain ≡ err e → trace ≡ err e)

    payload_total : (id : VectorId) (e : VexError) → Hnsw.payload h id ≢ Error.err e
    unfolding Hnsw.payload Hnsw.node_at
    payload_total id e q = elim (Option-cases (Dict.get h.id_to_pos id)) [
      | inl absent ↦ ground (arith, absent, q)
      | inr (pos, at) ↦ elim (Option-cases (get_elem? h.nodes pos)) [
        | inl out ↦ ground (arith, at, out, q)
        | inr (node, here) ↦ ground (arith, at, here, q)
      ]
    ]

    -- Naming the payloads of results is never an error.
    to_hits_total :
        (results : List SearchResult) (e : VexError) → to_hits inner_of results ≢ Error.err e
    unfolding to_hits
    to_hits_total [] e q = cc
    to_hits_total (r ∷ rs) e q =
        after (Hnsw.payload h r.id) (to_hits inner_of rs) (payload_total r.id) (to_hits_total rs) e
          q
      where
        after :
            (o : Outcome (Option p.Value)) (o' : Outcome (List Hit))
            → ((e : VexError) → o ≢ Error.err e)
            → ((e : VexError) → o' ≢ Error.err e)
            → (e : VexError)
            → (Error.◌>>=◌ o (λ payload. Error.◌>>=◌ o' (λ rest.
                Error.ok (record { id = r.id; distance = r.distance; payload = payload } ∷ rest))))
              ≢ Error.err e
        after (Error.ok a) (Error.ok b) n n' e q = cc
        after (Error.ok a) (Error.err f) n n' e q = n' f refl
        after (Error.ok a) Error.panic n n' e q = cc
        after (Error.ok a) Error.stuck n n' e q = cc
        after (Error.err f) o' n n' e q = n f refl
        after Error.panic o' n n' e q = cc
        after Error.stuck o' n n' e q = cc

    abbrev traced_hits : List Hit → SearchTrace → TracedHits
    traced_hits hits trace = record { hits = hits; trace = trace }

    named :
        (results : List SearchResult) (hits : List Hit)
        → to_hits inner_of results ≡ Error.ok hits
        → (t : Outcome SearchTrace)
        → ◌≡◌ {A = Attempt Failure TracedHits}
            (lift engine (Error.◌>>=◌ t (λ trace. Error.ok (results, trace))) >>= λ (r, trace).
              lift engine (to_hits inner_of r) >>= λ hits'. ok (traced_hits hits' trace))
            (lift engine t >>= λ trace. ok (traced_hits hits trace))
    named results hits e (Error.ok trace) = rw e refl
    named results hits e (Error.err f) = refl
    named results hits e Error.panic = refl
    named results hits e Error.stuck = refl

    follows :
        (filter : Option Filter) (o : Outcome (List SearchResult))
        → search_filtered_with_ef h query k (get_or ef h.config.ef_search) filter ≡ o
        → Follows
            (ok filter)
            (lift engine o >>= λ results. lift engine (to_hits inner_of results))
            (traced filter)
    follows filter (Error.ok results) q =
        let (sink, run, trace) =
          search_traced-search_filtered_with_ef h query k (get_or ef h.config.ef_search) filter q in
        (
          λ hits same.
              let found = lift_ok (to_hits inner_of results) hits same in
              let (t, written) =
                to_trace-ok h sink
                  (search_inner-IsRecorded h query k (get_or ef h.config.ef_search) filter run) in
              (
                filter,
                results,
                sink,
                t,
                refl,
                run,
                found,
                written,
                rw trace (named results hits found (to_trace h sink) ∙ rw written refl),
              ),
          λ e same.
              let (f, fails) = lift_err (to_hits inner_of results) e same in
              absurd (to_hits_total results f fails),
        )
    follows filter (Error.err e) q =
        let fails = search_traced_err h query k (get_or ef h.config.ef_search) filter q in
        rw fails (λ hits same. cc, λ e' same. ground (arith, same))
    follows filter Error.panic q = (λ hits same. cc, λ e same. cc)
    follows filter Error.stuck q = (λ hits same. cc, λ e same. cc)

    parsed : (m : Attempt Failure (Option Filter)) → Follows m (m >>= searched) (m >>= traced)
    parsed (ok filter) =
        follows filter (search_filtered_with_ef h query k (get_or ef h.config.ef_search) filter)
          refl
    parsed (err f) = (λ hits same. cc, λ e same. ground (arith, same))
    parsed Attempt.panic = (λ hits same. cc, λ e same. cc)
    parsed Attempt.stuck = (λ hits same. cc, λ e same. cc)

    -- On a graph index `search_trace` returns the hits of `search`. Where the search returns hits, the
    -- search with a recording sink, from an empty recording and with the same arguments and the parsed
    -- filter, returns results that are named as those hits; every node of that recording has an id, so
    -- that it has a trace; and the traced call with the same arguments returns the same hits with this
    -- trace.
    pub search_trace-search :
        {hits : List Hit}
        → search texts inner_of query k ef filter_json ≡ ok hits
        → Traces
            (parse_filter texts filter_json)
            hits
            (search_trace texts inner_of query k ef filter_json)
    unfolding search search_trace
    search_trace-search {hits} found = (parsed (parse_filter texts filter_json)).0 hits found

    -- Where the search fails, the traced call with the same arguments fails in the same way.
    pub search_trace_err :
        {e : Failure}
        → search texts inner_of query k ef filter_json ≡ err e
        → search_trace texts inner_of query k ef filter_json ≡ err e
    unfolding search search_trace
    search_trace_err {e} failed = (parsed (parse_filter texts filter_json)).1 e failed
