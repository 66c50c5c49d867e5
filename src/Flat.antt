-- ===== src/Flat.antt =====
-- crates/vex-core/src/flat.rs: the exact index, a list of entries and a map from id to position.
pub mod ItemOrder
pub mod Invariant
pub mod Add
pub mod Remove
pub mod View
pub mod Search
use Prim.Native.Nat.{Ordering, compare, min}
use vexdb.Prelude.{
  ℕ, Bool, true, false, not, Option, none, some, List, [], ◌∷◌, ◌++◌, map, length, get_elem?, set,
  ltb, ◌==◌, if◌then◌else◌,
}
use vexdb.Prelude.Order.{then_with, is_lt}
use vexdb.Platform.{Platform}
use vexdb.Error.{
  VectorId, Outcome, ok, err, panic, ◌>>=◌, ◌>>◌, expect, dimension_mismatch, duplicate_id,
  invalid_k,
}
use vexdb.Vector
use vexdb.Vector.{Vector}
use vexdb.Distance.Metric.{DistanceMetric, distance}
use vexdb.Payload.{Filter}
use vexdb.Index.{SearchResult, selects}
use vexdb.Collections.Heap.{push, peek, pop}
use vexdb.Collections.Vec.{swap_remove}
use vexdb.Collections.Dict
use vexdb.Collections.Dict.{nat_eq}

pub record Entry ⦃p : Platform⦄ : Type 0 where
  pub id : VectorId
  pub vector : Vector
  pub payload : Option p.Value

pub record FlatIndex ⦃p : Platform⦄ : Type 0 where
  pub metric : DistanceMetric
  pub dim : ℕ
  pub entries : List Entry
  pub id_to_pos : List (VectorId × ℕ)

pub record HeapItem ⦃p : Platform⦄ : Type 0 where
  pub distance : p.F32
  pub id : VectorId

module _ ⦃p : Platform⦄ where
  open p use {F32, Value, total_cmp}

  unfoldable pub new : ℕ → DistanceMetric → FlatIndex
  new dim metric = record { metric = metric; dim = dim; entries = []; id_to_pos = [] }

  unfoldable pub contains : FlatIndex → VectorId → Bool
  contains idx id = Dict.contains_key idx.id_to_pos id

  unfoldable pub iter_live : FlatIndex → List (VectorId × Vector × Option Value)
  iter_live idx = map (λ e. (e.id, e.vector, e.payload)) idx.entries

  unfoldable pub add_with_payload : FlatIndex → VectorId → Vector → Option Value → Outcome FlatIndex
  add_with_payload idx id vector payload =
      if not (Vector.dim vector == idx.dim)
      then err (dimension_mismatch idx.dim (Vector.dim vector))
      else if Dict.contains_key idx.id_to_pos id
      then err (duplicate_id id)
      else (let pos = length idx.entries in
          ok (record idx {
            entries = idx.entries ++ (record { id = id; vector = vector; payload = payload } ∷ []);
            id_to_pos = Dict.insert idx.id_to_pos id pos;
          }))

  unfoldable pub remove : FlatIndex → VectorId → Outcome (FlatIndex × Bool)
  unfolding swap_remove
  remove idx id = elim (Dict.get idx.id_to_pos id) [
    | none ↦ ok (idx, false)
    | some pos ↦ do
      let id_to_pos = Dict.remove idx.id_to_pos id
      entries ← expect (swap_remove idx.entries pos)
      if ltb pos (length entries)
          then (do
            moved ← expect (get_elem? entries pos)
            let id_to_pos' = Dict.insert id_to_pos moved.id pos
            ok (record idx { entries = entries; id_to_pos = id_to_pos' }, true))
          else ok (record idx { entries = entries; id_to_pos = id_to_pos }, true)
  ]

  -- By distance, then by id.
  unfoldable pub cmp_item : HeapItem → HeapItem → Ordering
  cmp_item a b = then_with (total_cmp a.distance b.distance) (compare a.id b.id)

  -- The body of the scan for one item: the heap holds the `cap` smallest items seen.
  unfoldable pub keep : ℕ → List HeapItem → HeapItem → List HeapItem
  unfolding cmp_item
  keep cap heap item = if ltb (length heap) cap then push cmp_item item heap else elim (peek heap) [
    | none ↦ heap
    | some top ↦ if is_lt (cmp_item item top) then push cmp_item item (pop heap) else heap
  ]

  unfoldable pub scan :
      DistanceMetric
      → List F32
      → Option Filter
      → ℕ
      → List Entry
      → List HeapItem
      → Outcome (List HeapItem)
  scan metric query filter cap [] heap = ok heap
  scan metric query filter cap (e ∷ es) heap = elim (selects filter e.payload) [
    | false ↦ scan metric query filter cap es heap
    | true ↦ do
      d ← distance metric query (Vector.as_slice e.vector)
      scan metric query filter cap es (keep cap heap (record { distance = d; id = e.id }))
  ]

  abbrev pub to_result : HeapItem → SearchResult
  to_result h = record { id = h.id; distance = h.distance }

  unfoldable pub search_filtered :
      FlatIndex → List F32 → ℕ → Option Filter → Outcome (List SearchResult)
  unfolding scan
  search_filtered idx query k filter =
      if k == 0
      then err invalid_k
      else if not (length query == idx.dim)
      then err (dimension_mismatch idx.dim (length query))
      else if length idx.entries == 0
      then ok []
      else (do
        let cap = min k (length idx.entries)
        heap ← scan idx.metric query filter cap idx.entries []
        ok (map to_result heap))

  unfoldable pub payload : FlatIndex → VectorId → Outcome (Option Value)
  payload idx id = elim (Dict.get idx.id_to_pos id) [
    | none ↦ ok none
    | some pos ↦ do e ← expect (get_elem? idx.entries pos); ok e.payload
  ]

  unfoldable pub vector : FlatIndex → VectorId → Outcome (Option Vector)
  vector idx id = elim (Dict.get idx.id_to_pos id) [
    | none ↦ ok none
    | some pos ↦ do e ← expect (get_elem? idx.entries pos); ok (some e.vector)
  ]

  unfoldable pub len : FlatIndex → ℕ
  len idx = length idx.entries
