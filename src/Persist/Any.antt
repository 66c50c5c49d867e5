-- ===== src/Persist/Any.antt =====
-- `AnyIndex`: an index of either kind, with the operations of the `Index` trait.
use vexdb.Prelude.{ℕ, Bool, true, false, Option, List, ◌==◌, String}
use mathlib.Core.Option.{get_or}
use vexdb.Platform.{Platform}
use vexdb.Error
use vexdb.Error.{VectorId, Outcome, ◌>>=◌}
use vexdb.Vector.{Vector}
use vexdb.Payload.{Filter}
use vexdb.Index.{SearchResult}
use vexdb.Distance.Metric.{DistanceMetric}
use vexdb.Flat
use vexdb.Flat.{FlatIndex}
use vexdb.Hnsw
use vexdb.Hnsw.{HnswIndex}
use vexdb.Persist.Format
use vexdb.Persist.Format.{Result}
use vexdb.Persist.Write
use vexdb.Persist.Read

pub data AnyIndex ⦃p : Platform⦄ : Type 0 where
  flat : FlatIndex → AnyIndex
  hnsw : HnswIndex → AnyIndex

module _ ⦃p : Platform⦄ where
  open p use {F32, Value}

  abbrev pub metric : AnyIndex → DistanceMetric
  metric (flat i) = i.metric
  metric (hnsw i) = i.metric

  abbrev pub type_name : AnyIndex → String
  type_name (flat i) = "flat"
  type_name (hnsw i) = "hnsw"

  abbrev pub dim : AnyIndex → ℕ
  dim (flat i) = i.dim
  dim (hnsw i) = i.dim

  abbrev pub len : AnyIndex → ℕ
  len (flat i) = Flat.len i
  len (hnsw i) = Hnsw.len i

  abbrev pub iter_live : AnyIndex → List (VectorId × Vector × Option Value)
  iter_live (flat i) = Flat.iter_live i
  iter_live (hnsw i) = Hnsw.iter_live i

  abbrev pub add_with_payload : AnyIndex → VectorId → Vector → Option Value → Outcome AnyIndex
  add_with_payload (flat i) id v payload = do
    i' ← Flat.add_with_payload i id v payload
    Error.ok (flat i')
  add_with_payload (hnsw i) id v payload = do
    i' ← Hnsw.Insert.add_with_payload i id v payload
    Error.ok (hnsw i')

  abbrev pub remove : AnyIndex → VectorId → Outcome (AnyIndex × Bool)
  remove (flat i) id = do (i', removed) ← Flat.remove i id; Error.ok (flat i', removed)
  remove (hnsw i) id = do (i', removed) ← Hnsw.Insert.remove i id; Error.ok (hnsw i', removed)

  abbrev pub payload : AnyIndex → VectorId → Outcome (Option Value)
  payload (flat i) id = Flat.payload i id
  payload (hnsw i) id = Hnsw.payload i id

  abbrev pub vector : AnyIndex → VectorId → Outcome (Option Vector)
  vector (flat i) id = Flat.vector i id
  vector (hnsw i) id = Hnsw.vector i id

  abbrev pub search_filtered : AnyIndex → List F32 → ℕ → Option Filter → Outcome (List SearchResult)
  search_filtered (flat i) query k filter = Flat.search_filtered i query k filter
  search_filtered (hnsw i) query k filter = Hnsw.Search.search_filtered i query k filter

  -- `ef` is for the graph index alone.
  abbrev pub search_opts :
      AnyIndex → List F32 → ℕ → Option ℕ → Option Filter → Outcome (List SearchResult)
  search_opts (flat i) query k ef filter = Flat.search_filtered i query k filter
  search_opts (hnsw i) query k ef filter =
      Hnsw.Search.search_filtered_with_ef i query k (get_or ef i.config.ef_search) filter

  abbrev pub write_to : AnyIndex → Result (List ℕ)
  write_to (flat i) = Write.write_flat i
  write_to (hnsw i) = Write.write_hnsw i

  -- The kind was checked with the header.
  unfoldable pub read_any : Read.Reader AnyIndex
  read_any s = elim (Read.read_header s) [
    | Format.err e ↦ Format.err e
    | Format.ok (header, rest) ↦ elim (header.index_type == Format.type_flat) [
      | true ↦ elim (Read.read_flat_body header rest) [
        | Format.err e ↦ Format.err e
        | Format.ok (i, rest') ↦ Format.ok (flat i, rest')
      ]
      | false ↦ elim (Read.read_hnsw_body header rest) [
        | Format.err e ↦ Format.err e
        | Format.ok (i, rest') ↦ Format.ok (hnsw i, rest')
      ]
    ]
  ]

  abbrev pub read_from : List ℕ → Result AnyIndex
  read_from bytes = elim (read_any bytes) [
    | Format.err e ↦ Format.err e
    | Format.ok (i, rest) ↦ Format.ok i
  ]
