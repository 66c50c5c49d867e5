-- ===== src/Wasm.antt =====
-- crates/vex-wasm/src/lib.rs: the bindings for the browser. `Inner` holds an index of either kind; the
-- module VexIndex converts at the boundary.
pub mod VexIndex
pub mod Export
pub mod Reload
pub mod Trace
use vexdb.Prelude.{ℕ, Option, none, some, List, [], ◌∷◌, ◌++◌, map, String, ◌≡◌}
use mathlib.Core.Option
use mathlib.Core.Option.{get_or}
use vexdb.Platform.{Platform}
use vexdb.Error
use vexdb.Error.{VexError, VectorId, Outcome}
use vexdb.Vector
use vexdb.Payload.{Filter}
use vexdb.Index.{SearchResult}
use vexdb.Distance.Metric.{DistanceMetric, cosine, l2, dot}
use vexdb.Distance.Tags.{codes, from_str}
use vexdb.Flat
use vexdb.Hnsw
use vexdb.Hnsw.{HnswConfig, HnswIndex, default_config}
use vexdb.Hnsw.Trace.{SearchTrace}
use vexdb.Hnsw.Search.{search_traced}
use vexdb.Persist.Format.{SnapshotError}
use vexdb.Persist.Any
use vexdb.Persist.Any.{AnyIndex, flat, hnsw}
use vexdb.Attempt.{Attempt, ok, err, ◌>>=◌, lift, lift_snapshot, or_fail, parse_optional}

-- The messages of the bindings, without the values that they print.
pub data Failure : Type 0 where
  unknown_metric : Failure
  bad_payload : Failure
  bad_filter : Failure
  engine : VexError → Failure
  snapshot : SnapshotError → Failure
  no_traversal : Failure
  not_serializable : Failure

pub record Hit ⦃p : Platform⦄ : Type 0 where
  pub id : ℕ
  pub distance : p.F32
  pub payload : Option p.Value

pub record TracedHits ⦃p : Platform⦄ : Type 0 where
  pub hits : List Hit
  pub trace : SearchTrace

pub record Stats : Type 0 where
  pub index : String
  pub metric : String
  pub dim : ℕ
  pub count : ℕ

pub record Inner ⦃p : Platform⦄ : Type 0 where
  pub index : AnyIndex

-- `serde_json::from_str`, at the two types that the bindings read.
pub record Texts ⦃p : Platform⦄ : Type 0 where
  pub value_of : String → Option p.Value
  pub filter_of : String → Option Filter

-- `format!("{:?}", metric).to_lowercase()`
abbrev pub metric_name : DistanceMetric → String
metric_name cosine = "cosine"
metric_name l2 = "l2"
metric_name dot = "dot"

module _ ⦃p : Platform⦄ where
  open p use {F32, Value}

  unfoldable pub from_snapshot : List ℕ → Attempt Failure Inner
  from_snapshot bytes = do
    index ← lift_snapshot snapshot (Any.read_from bytes)
    ok (record { index = index })

  unfoldable pub new_hnsw : ℕ → String → ℕ → ℕ → Attempt Failure Inner
  new_hnsw dim metric m ef_construction = do
    metric' ← or_fail unknown_metric (from_str (codes metric))
    ok (record {
      index = hnsw (
          Hnsw.new dim metric'
            (record default_config { m = m; ef_construction = ef_construction }));
    })

  -- The payload of each result.
  unfoldable pub to_hits : Inner → List SearchResult → Outcome (List Hit)
  to_hits inner [] = Error.ok []
  to_hits inner (r ∷ rs) = Error.◌>>=◌ (Any.payload inner.index r.id) (λ payload.
      Error.◌>>=◌ (to_hits inner rs)
        (λ rest. Error.ok (record { id = r.id; distance = r.distance; payload = payload } ∷ rest)))

  module _ (texts : Texts) where
    -- The new index; on an error the old one stays.
    unfoldable pub add : Inner → ℕ → List F32 → Option String → Attempt Failure Inner
    add inner id vector payload_json = do
      payload ← parse_optional texts.value_of bad_payload payload_json
      vector' ← lift engine (Vector.new vector (Any.dim inner.index))
      index ← lift engine (Any.add_with_payload inner.index id vector' payload)
      ok (record { index = index })

    abbrev pub parse_filter : Option String → Attempt Failure (Option Filter)
    parse_filter filter_json = parse_optional texts.filter_of bad_filter filter_json

    unfoldable pub search :
        Inner → List F32 → ℕ → Option ℕ → Option String → Attempt Failure (List Hit)
    search inner query k ef filter_json = do
      filter ← parse_filter filter_json
      results ← lift engine (Any.search_opts inner.index query k ef filter)
      lift engine (to_hits inner results)

    unfoldable pub search_trace :
        Inner → List F32 → ℕ → Option ℕ → Option String → Attempt Failure TracedHits
    search_trace inner query k ef filter_json = do
      filter ← parse_filter filter_json
      elim inner.index [
        | hnsw h ↦ do
          let ef' = get_or ef h.config.ef_search
          (results, trace) ← lift engine (search_traced h query k ef' filter)
          hits ← lift engine (to_hits inner results)
          ok (record { hits = hits; trace = trace })
        | flat _ ↦ err no_traversal
      ]

    unfoldable pub search_exact : Inner → List F32 → ℕ → Option String → Attempt Failure (List Hit)
    search_exact inner query k filter_json = do
      filter ← parse_filter filter_json
      results ← lift engine (elim inner.index [
        | hnsw h ↦ Hnsw.Search.search_exact h query k filter
        | flat i ↦ Flat.search_filtered i query k filter
      ])
      lift engine (to_hits inner results)

  unfoldable pub export_ids : Inner → List ℕ
  export_ids inner = map (λ e. e.0) (Any.iter_live inner.index)

  -- `extend_from_slice` for each vector.
  abbrev pub concat_vectors : List (VectorId × Vector.Vector × Option Value) → List F32
  concat_vectors [] = []
  concat_vectors ((_, v, _) ∷ es) = Vector.as_slice v ++ concat_vectors es

  unfoldable pub export_vectors : Inner → List F32
  export_vectors inner = concat_vectors (Any.iter_live inner.index)

  unfoldable pub vector_of : Inner → ℕ → Outcome (Option (List F32))
  vector_of inner id =
      Error.◌>>=◌ (Any.vector inner.index id) (λ v. Error.ok (Option.map Vector.as_slice v))

  unfoldable pub payload_of : Inner → ℕ → Outcome (Option Value)
  payload_of inner id = Any.payload inner.index id

  unfoldable pub stats : Inner → Stats
  stats inner = record {
    index = Any.type_name inner.index;
    metric = metric_name (Any.metric inner.index);
    dim = Any.dim inner.index;
    count = Any.len inner.index;
  }

  unfoldable pub snapshot_bytes : Inner → Attempt Failure (List ℕ)
  snapshot_bytes inner = lift_snapshot snapshot (Any.write_to inner.index)
