-- ===== src/Cli/Run.antt =====
-- `main`: the commands. What they print is a value; a build also changes the disk.
use vexdb.Prelude.{ℕ, Option, none, some, List, String, length}
use vexdb.Platform.{Platform}
use vexdb.Index.{SearchResult}
use vexdb.Distance.Metric.{DistanceMetric}
use vexdb.Distance.Tags.{codes, from_str}
use vexdb.Flat
use vexdb.Persist.Format
use vexdb.Persist.Format.{Result, io}
use vexdb.Persist.Any
use vexdb.Persist.Any.{AnyIndex}
use vexdb.Server.{Files, save}
use vexdb.Attempt.{Attempt, ok, err, ◌>>=◌, lift, lift_snapshot, or_fail}
use vexdb.Cli.{
  Failure, World, any_indexing, new_index, parse_all, parse_query, load_into, build_index,
  unknown_metric, bad_ef_search, saving, loading, no_input, engine,
}
use vexdb.Cli.Bench.{Row, run_bench}

-- The subcommands with their arguments, the defaults filled in.
pub data Command : Type 0 where
  ingest : (input : String) (dim : ℕ) (metric : String) → Command
  build :
      (input output : String) (dim : ℕ) (metric index : String) (hnsw_m ef_construction : ℕ)
      → Command
  query :
      (input snapshot : Option String) (query : String) (k : ℕ) (ef : Option ℕ)
      (metric index : String)
      → Command
  bench :
      (n dim queries k : ℕ) (metric : String) (hnsw_m ef_construction : ℕ) (ef_search : String)
      (seed : ℕ)
      → Command

-- What is printed.
pub data Output ⦃p : Platform⦄ : Type 0 where
  ingested : (len dim : ℕ) → DistanceMetric → Output
  built : (kind : String) (len dim : ℕ) → DistanceMetric → Output
  top_results : List SearchResult → Output
  recalls : List Row → Output

-- `metric.parse()?`
abbrev pub metric_of : String → Attempt Failure DistanceMetric
metric_of metric = or_fail unknown_metric (from_str (codes metric))

module _ ⦃p : Platform⦄ {Disk : Type 0} (world : World Disk) where
  unfoldable pub run_ingest : Disk → String → ℕ → String → Attempt Failure Output
  run_ingest disk input dim metric = do
    metric' ← metric_of metric
    index ← build_index world disk input dim metric'
    ok (ingested (Flat.len index) index.dim metric')

  -- The index that a build saves.
  unfoldable pub make_index :
      Disk → String → ℕ → DistanceMetric → String → ℕ → ℕ → Attempt Failure AnyIndex
  make_index disk input dim metric index hnsw_m ef_construction = do
    idx ← new_index index dim metric hnsw_m ef_construction
    load_into world any_indexing disk input idx

  -- `AnyIndex::load`
  unfoldable pub load : Disk → String → Result AnyIndex
  load disk path = elim (world.read_file disk path) [
    | none ↦ Format.err io
    | some bytes ↦ Any.read_from bytes
  ]

  -- The index that a query searches.
  unfoldable pub open_index :
      Disk → Option String → Option String → ℕ → String → String → Attempt Failure AnyIndex
  open_index disk input (some path) dim metric index = lift_snapshot loading (load disk path)
  open_index disk (some path) none dim metric index = do
    metric' ← metric_of metric
    make_index disk path dim metric' index 16 200
  open_index disk none none dim metric index = err no_input

  unfoldable pub run_query :
      Disk
      → Option String
      → Option String
      → String
      → ℕ
      → Option ℕ
      → String
      → String
      → Attempt Failure Output
  run_query disk input snapshot text k ef metric index = do
    q ← parse_query world text
    idx ← open_index disk input snapshot (length q) metric index
    results ← lift engine (Any.search_opts idx q k ef none)
    ok (top_results results)

  module _ (files : Files Disk) where
    -- The save of a built index to the path `output`, by way of its temporary sibling.
    abbrev pub saved :
        DistanceMetric → AnyIndex → Disk × Result (Unit {0}) → Disk × Attempt Failure Output
    saved metric idx (disk, Format.ok _) =
        (disk, ok (built (Any.type_name idx) (Any.len idx) (Any.dim idx) metric))
    saved metric idx (disk, Format.err e) = (disk, err (saving e))

    -- Saves what was made, if it was made.
    abbrev pub save_made :
        Disk → String → DistanceMetric → Attempt Failure AnyIndex → Disk × Attempt Failure Output
    save_made disk output metric (ok idx) = saved metric idx (save files disk output idx)
    save_made disk output metric (err e) = (disk, err e)
    save_made disk output metric Attempt.panic = (disk, Attempt.panic)
    save_made disk output metric Attempt.stuck = (disk, Attempt.stuck)

    abbrev pub build_with :
        Disk
        → String
        → String
        → ℕ
        → String
        → ℕ
        → ℕ
        → Attempt Failure DistanceMetric
        → Disk × Attempt Failure Output
    build_with disk input output dim index hnsw_m ef_construction (ok metric) =
        save_made disk output metric (make_index disk input dim metric index hnsw_m ef_construction)
    build_with disk input output dim index hnsw_m ef_construction (err e) = (disk, err e)
    build_with disk input output dim index hnsw_m ef_construction Attempt.panic =
        (disk, Attempt.panic)
    build_with disk input output dim index hnsw_m ef_construction Attempt.stuck =
        (disk, Attempt.stuck)

    unfoldable pub run_build :
        Disk → String → String → ℕ → String → String → ℕ → ℕ → Disk × Attempt Failure Output
    run_build disk input output dim metric index hnsw_m ef_construction =
        build_with disk input output dim index hnsw_m ef_construction (metric_of metric)

    unfoldable pub main : Disk → Command → Disk × Attempt Failure Output
    main disk (ingest input dim metric) = (disk, run_ingest disk input dim metric)
    main disk (build input output dim metric index hnsw_m ef_construction) =
        run_build disk input output dim metric index hnsw_m ef_construction
    main disk (query input snapshot q k ef metric index) =
        (disk, run_query disk input snapshot q k ef metric index)
    main disk (bench n dim queries k metric hnsw_m ef_construction ef_search seed) = (
      disk,
      do
        metric' ← metric_of metric
        efs ← parse_all world world.usize_of bad_ef_search (world.fields ef_search)
        rows ← run_bench world (record {
          n = n;
          dim = dim;
          queries = queries;
          k = k;
          metric = metric';
          m = hnsw_m;
          ef_construction = ef_construction;
          ef_search = efs;
          seed = seed;
        })
        ok (recalls rows),
    )
