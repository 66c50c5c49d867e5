-- ===== src/Persist/Queries.antt =====
-- What a search of an index of either kind refuses, and that it answers all else.
use vexdb.Prelude.{
  ℕ, true, false, not, Option, none, some, List, ◌≡◌, refl, arith, length, ◌==◌, if◌then◌else◌,
  Bool-cases, inl, inr,
}
use mathlib.Core.Option.{get_or}
use vexdb.Platform.{Platform}
use vexdb.Platform.Laws.{FloatOrder}
use vexdb.Error
use vexdb.Error.{VexError, Outcome, dimension_mismatch, invalid_k, ◌>>=◌}
use vexdb.Payload.{Filter}
use vexdb.Index.{SearchResult}
use vexdb.Flat
use vexdb.Flat.{FlatIndex}
use vexdb.Flat.Invariant.{IsValid}
use vexdb.Flat.Search.{search-nearest}
use vexdb.Hnsw.{HnswIndex}
use vexdb.Hnsw.Graph.{IsGraph}
use vexdb.Hnsw.Search.{search_inner, search_filtered_with_ef}
use vexdb.Hnsw.Trace.{noop_sink}
use vexdb.Hnsw.SearchRun.{search_inner-ok}
use vexdb.Persist.Any
use vexdb.Persist.Any.{AnyIndex, flat, hnsw, search_opts}

-- Why a query of length `n` for `k` results is refused by an index of dimension `dim`.
abbrev pub refusal : (dim k n : ℕ) → Option VexError
refusal dim k n =
    if k == 0
    then some invalid_k
    else if not (n == dim)
    then some (dimension_mismatch dim n)
    else none

-- The call returns the error, or a result where there is none; it neither panics nor runs out.
abbrev pub Refuses : {A : Type 0} → Option VexError → Outcome A → Type 0
Refuses reason (Error.ok a) = reason ≡ none
Refuses reason (Error.err e) = reason ≡ some e
Refuses reason Error.panic = ⊥
Refuses reason Error.stuck = ⊥

module _ ⦃p : Platform⦄ where
  open p use {F32}

  -- A well-formed index of either kind.
  abbrev pub IsSound : AnyIndex → Type 0
  IsSound (flat i) = IsValid i
  IsSound (hnsw i) = IsGraph i

  pub plain_ok :
      (i : HnswIndex) (query : List F32) (k ef : ℕ) (filter : Option Filter)
      {results : List SearchResult} {s : Unit {0}}
      → search_inner noop_sink i query k ef filter tt ≡ Error.ok (results, s)
      → search_filtered_with_ef i query k ef filter ≡ Error.ok results
  unfolding search_filtered_with_ef
  plain_ok i query k ef filter run = simp (search_filtered_with_ef, run, ◌>>=◌)

  answers :
      {A : Type 0} (dim k : ℕ) (query : List F32) (o : Outcome A) {a : A}
      → k == 0 ≡ false
      → length query == dim ≡ true
      → o ≡ Error.ok a
      → Refuses (refusal dim k (length query)) o
  answers dim k query o positive fits h = rw (h, positive, fits) refl

  -- Where `f32::total_cmp` is a total order that agrees with `<`, a search of a well-formed index of
  -- either kind refuses a query for no results, and else one that is not of the dimension of the
  -- index, with the error that says so; it answers every other query, and never panics.
  pub search_opts-Refuses :
      FloatOrder p
      → (index : AnyIndex) → IsSound index
      → (query : List F32) (k : ℕ) (ef : Option ℕ) (filter : Option Filter)
      → Refuses (refusal (Any.dim index) k (length query)) (search_opts index query k ef filter)
  unfolding Flat.search_filtered search_filtered_with_ef search_inner
  search_opts-Refuses floats (flat i) w query k ef filter = elim (Bool-cases (k == 0)) [
    | inl zero_k ↦ simp (Flat.search_filtered, zero_k) refl
    | inr positive ↦ elim (Bool-cases (length query == i.dim)) [
      | inr misfit ↦ simp (Flat.search_filtered, positive, misfit) refl
      | inl fits ↦
          let answer =
            search-nearest floats i w query k filter (ground (arith, positive))
              (ground (arith, fits)) in
          answers i.dim k query (search_opts (flat i) query k ef filter) positive fits answer
    ]
  ]
  search_opts-Refuses floats (hnsw i) w query k ef filter = elim (Bool-cases (k == 0)) [
    | inl zero_k ↦ simp (search_filtered_with_ef, search_inner, zero_k, ◌>>=◌) refl
    | inr positive ↦ elim (Bool-cases (length query == i.dim)) [
      | inr misfit ↦ simp (search_filtered_with_ef, search_inner, positive, misfit, ◌>>=◌) refl
      | inl fits ↦
          let (results, s', run, _) =
            search_inner-ok floats i w query (ground (arith, fits)) noop_sink k
              (get_or ef i.config.ef_search) filter tt (ground (arith, positive)) in
          answers i.dim k query (search_opts (hnsw i) query k ef filter) positive fits
            (plain_ok i query k (get_or ef i.config.ef_search) filter run)
    ]
  ]
