-- ===== src/Cli/Bench.antt =====
-- `run_bench`: the synthetic vectors, the ground truth of the flat index, and the recall of the graph
-- index for each `ef`.
use vexdb.Prelude.{
  ℕ, zero, suc, ◌+◌, ◌^◌, ◌/◌, Bool, false, ◌||◌, none, List, [], ◌∷◌, map, length, ◌==◌,
  if◌then◌else◌,
}
use vexdb.Platform.{Platform}
use vexdb.Error.{VectorId, Outcome}
use vexdb.Vector
use vexdb.Index.{SearchResult}
use vexdb.Distance.Metric.{DistanceMetric}
use vexdb.Flat
use vexdb.Flat.{FlatIndex}
use vexdb.Hnsw
use vexdb.Hnsw.{HnswIndex, HnswConfig}
use vexdb.Hnsw.Level.{next_state, mix}
use vexdb.Attempt.{Attempt, ok, ◌>>=◌, lift}
use vexdb.Cli.{Failure, World, engine}

pub record BenchParams : Type 0 where
  pub n : ℕ
  pub dim : ℕ
  pub queries : ℕ
  pub k : ℕ
  pub metric : DistanceMetric
  pub m : ℕ
  pub ef_construction : ℕ
  pub ef_search : List ℕ
  pub seed : ℕ

-- A row of the table, without the timings.
pub record Row ⦃p : Platform⦄ : Type 0 where
  pub ef : ℕ
  pub hits : ℕ
  pub total : ℕ
  pub recall : p.F64

-- A HashSet of ids, as the list of its members.
abbrev pub has_id : List VectorId → VectorId → Bool
has_id [] id = false
has_id (x ∷ xs) id = x == id || has_id xs id

abbrev pub insert_id : VectorId → List VectorId → List VectorId
insert_id id set = if has_id set id then set else id ∷ set

abbrev pub id_set : List VectorId → List VectorId
id_set [] = []
id_set (id ∷ ids) = insert_id id (id_set ids)

-- `res.iter().filter(|id| t.contains(id)).count()`
abbrev pub count_in : List VectorId → List VectorId → ℕ
count_in truth [] = 0
count_in truth (id ∷ ids) =
    let rest = count_in truth ids in if has_id truth id then suc rest else rest

-- The sum over the queries, up to the end of the shorter list.
abbrev pub sum_hits : List (List VectorId) → List (List VectorId) → ℕ
sum_hits (r ∷ results) (t ∷ truth) = count_in t r + sum_hits results truth
sum_hits _ _ = 0

abbrev pub sum_lengths : List (List VectorId) → ℕ
sum_lengths [] = 0
sum_lengths (t ∷ truth) = length t + sum_lengths truth

module _ ⦃p : Platform⦄ where
  open p use {F32, one_f, mul_f, div_f, sub_f, of_int_d, div_d}

  -- The ids of the results of each query.
  unfoldable pub search_each :
      (List F32 → Outcome (List SearchResult))
      → List (List F32)
      → Attempt Failure (List (List VectorId))
  search_each search [] = ok []
  search_each search (q ∷ qs) = do
    results ← lift engine (search q)
    rest ← search_each search qs
    ok (map (λ r. r.id) results ∷ rest)

  -- Adds the vectors under the ids from `i` on.
  unfoldable pub add_each :
      {I : Type 0}
      → (I → VectorId → Vector.Vector → Outcome I)
      → ℕ
      → List (List F32)
      → I
      → Attempt Failure I
  add_each add i [] index = ok index
  add_each add i (v ∷ vs) index = do
    index' ← lift engine (add index i (Vector.from_vec v))
    add_each add (suc i) vs index'

  module _ {Disk : Type 0} (world : World Disk) where
    open world use {of_int_f}

    -- The number in [-1, 1) that is drawn, and the state after it.
    unfoldable pub next_f32 : ℕ → F32 × ℕ
    next_f32 state =
        let state' = next_state state in
        let z = mix state' in
        (
          sub_f (mul_f (div_f (of_int_f (z / 2 ^ 40)) (of_int_f (2 ^ 24))) (of_int_f 2)) one_f,
          state',
        )

    unfoldable pub rng_vector : ℕ → ℕ → List F32 × ℕ
    rng_vector zero state = ([], state)
    rng_vector (suc dim) state =
        let (x, state') = next_f32 state in
        let (xs, state'') = rng_vector dim state' in (x ∷ xs, state'')

    unfoldable pub rng_vectors : ℕ → ℕ → ℕ → List (List F32) × ℕ
    rng_vectors zero dim state = ([], state)
    rng_vectors (suc n) dim state =
        let (v, state') = rng_vector dim state in
        let (vs, state'') = rng_vectors n dim state' in (v ∷ vs, state'')

    -- The sweep over the `ef` values.
    unfoldable pub sweep :
        HnswIndex → ℕ → List (List F32) → List (List VectorId) → List ℕ → Attempt Failure (List Row)
    sweep hnsw k queries truth [] = ok []
    sweep hnsw k queries truth (ef ∷ efs) = do
      results ← search_each (λ q. Hnsw.Search.search_with_ef hnsw q k ef) queries
      rest ← sweep hnsw k queries truth efs
      let hits = sum_hits results truth
      let total = sum_lengths truth
      let row : Row = record {
        ef = ef;
        hits = hits;
        total = total;
        recall = div_d (of_int_d hits) (of_int_d total);
      }
      ok (row ∷ rest)

    unfoldable pub run_bench : BenchParams → Attempt Failure (List Row)
    run_bench b = do
      let (vectors, state) = rng_vectors b.n b.dim b.seed
      let (queries, _) = rng_vectors b.queries b.dim state
      flat ←
          add_each (λ i id v. Flat.add_with_payload i id v none) 0 vectors (Flat.new b.dim b.metric)
      found ← search_each (λ q. Flat.search_filtered flat q b.k none) queries
      let truth = map id_set found
      let config : HnswConfig = record {
        m = b.m;
        ef_construction = b.ef_construction;
        ef_search = b.k;
        seed = b.seed;
      }
      hnsw ←
          add_each (λ i id v. Hnsw.Insert.add_with_payload i id v none) 0 vectors
            (Hnsw.new b.dim b.metric config)
      sweep hnsw b.k queries truth b.ef_search
