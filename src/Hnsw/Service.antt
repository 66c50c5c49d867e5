-- ===== src/Hnsw/Service.antt =====
-- The searches of every index that insertions and removals make.
use vexdb.Prelude.{◌%◌, ℕ, ◌+◌, ◌≢◌, false, Option, List, ◌≡◌, sym, ◌∙◌, length, ◌⊎◌}
use vexdb.Platform.{Platform}
use vexdb.Platform.Laws.{FloatOrder}
use vexdb.Error.{ok, panic}
use vexdb.Payload.{Filter}
use vexdb.Index.{SearchResult}
use vexdb.Distance.Metric.{DistanceMetric}
use vexdb.Hnsw.{HnswIndex, HnswConfig, has_room}
use vexdb.Hnsw.Trace.{noop_sink}
use vexdb.Hnsw.Search.{search_filtered_with_ef, search_exact}
use vexdb.Hnsw.Answer.{IsAnswer, IsNearest}
use vexdb.Hnsw.SearchRun.{search_inner-ok}
use vexdb.Hnsw.Exact.{search_exact-IsNearest}
use vexdb.Hnsw.Built.{IsUsable, Built, Built-IsIndex}
use vexdb.Persist.Queries.{plain_ok}

module _ ⦃p : Platform⦄ where
  open p use {F32, usize_max}

  pub Built-answers :
      FloatOrder p
      → (dim : ℕ) (metric : DistanceMetric) (config : HnswConfig) → IsUsable config
      → (idx : HnswIndex) → Built dim metric config idx
      → (query : List F32) → length query ≡ dim
      → (k ef : ℕ) (filter : Option Filter) → k ≢ 0
      → ((approximate : List SearchResult) × (search_filtered_with_ef idx query k ef filter
            ≡ ok approximate)
          × IsAnswer idx query k filter approximate)
        × (((has_room ((k + 1) % (usize_max + 1)) ≡ false)
              × (search_exact idx query k filter ≡ panic))
            ⊎ ((exact : List SearchResult) × (search_exact idx query k filter ≡ ok exact)
                × IsNearest idx query k filter exact))
  Built-answers floats dim metric config usable idx built query fits k ef filter positive =
      let (w, _, same) = Built-IsIndex floats dim metric config usable built in
      let sized = fits ∙ sym same in
      let (found, _, run, answer) =
        search_inner-ok floats idx w.graph query sized noop_sink k ef filter tt positive in
      (
        (found, plain_ok idx query k ef filter run, answer),
        search_exact-IsNearest floats idx w.graph.vectors query sized filter k positive,
      )
