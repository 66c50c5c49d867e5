-- ===== src/Wasm/VexIndex.antt =====
-- The `#[wasm_bindgen]` layer: the same operations, with JavaScript values for what they return.
use vexdb.Prelude.{ℕ, Bool, Option, none, some, List, String, ltb, ◌==◌, if◌then◌else◌}
use vexdb.Platform.{Platform}
use vexdb.Error.{Outcome}
use vexdb.Attempt.{Attempt, ok, ◌>>=◌, lift, or_fail}
use vexdb.Persist.Any
use vexdb.Wasm
use vexdb.Wasm.{Failure, Hit, TracedHits, Stats, Inner, Texts, engine, not_serializable}

pub record VexIndex ⦃p : Platform⦄ : Type 0 where
  pub inner : Inner

-- `serde_wasm_bindgen`, at the types that the bindings return. `none` is a failed serialization.
pub record Serializer ⦃p : Platform⦄ (Js : Type 0) : Type 0 where
  pub hits : List Hit → Option Js
  pub traced : TracedHits → Option Js
  pub payload : Option p.Value → Option Js
  pub stats : Stats → Option Js

-- `(ef > 0).then_some(ef)`
abbrev pub ef_of : ℕ → Option ℕ
ef_of ef = if ltb 0 ef then some ef else none

abbrev pub to_js : {A Js : Type 0} → (A → Option Js) → A → Attempt Failure Js
to_js serialize value = or_fail not_serializable (serialize value)

module _ ⦃p : Platform⦄ where
  open p use {F32}

  unfoldable pub from_snapshot : List ℕ → Attempt Failure VexIndex
  from_snapshot bytes = do inner ← Wasm.from_snapshot bytes; ok (record { inner = inner })

  unfoldable pub new_hnsw : ℕ → String → ℕ → ℕ → Attempt Failure VexIndex
  new_hnsw dim metric m ef_construction = do
    inner ← Wasm.new_hnsw dim metric m ef_construction
    ok (record { inner = inner })

  module _ (texts : Texts) where
    unfoldable pub add : VexIndex → ℕ → List F32 → Option String → Attempt Failure VexIndex
    add v id vector payload_json = do
      inner ← Wasm.add texts v.inner id vector payload_json
      ok (record { inner = inner })

    module _ {Js : Type 0} (js : Serializer Js) where
      unfoldable pub search : VexIndex → List F32 → ℕ → ℕ → Option String → Attempt Failure Js
      search v query k ef filter_json = do
        hits ← Wasm.search texts v.inner query k (ef_of ef) filter_json
        to_js js.hits hits

      unfoldable pub search_trace : VexIndex → List F32 → ℕ → ℕ → Option String → Attempt Failure Js
      search_trace v query k ef filter_json = do
        traced ← Wasm.search_trace texts v.inner query k (ef_of ef) filter_json
        to_js js.traced traced

      unfoldable pub search_exact : VexIndex → List F32 → ℕ → Option String → Attempt Failure Js
      search_exact v query k filter_json = do
        hits ← Wasm.search_exact texts v.inner query k filter_json
        to_js js.hits hits

  abbrev pub export_ids : VexIndex → List ℕ
  export_ids v = Wasm.export_ids v.inner

  abbrev pub export_vectors : VexIndex → List F32
  export_vectors v = Wasm.export_vectors v.inner

  abbrev pub vector_of : VexIndex → ℕ → Outcome (Option (List F32))
  vector_of v id = Wasm.vector_of v.inner id

  module _ {Js : Type 0} (js : Serializer Js) where
    unfoldable pub payload_of : VexIndex → ℕ → Attempt Failure Js
    payload_of v id = do
      payload ← lift engine (Wasm.payload_of v.inner id)
      to_js js.payload payload

    unfoldable pub stats : VexIndex → Attempt Failure Js
    stats v = to_js js.stats (Wasm.stats v.inner)

  abbrev pub to_snapshot : VexIndex → Attempt Failure (List ℕ)
  to_snapshot v = Wasm.snapshot_bytes v.inner

  abbrev pub len : VexIndex → ℕ
  len v = Any.len v.inner.index

  abbrev pub is_empty : VexIndex → Bool
  is_empty v = Any.len v.inner.index == 0

  abbrev pub dim : VexIndex → ℕ
  dim v = Any.dim v.inner.index
