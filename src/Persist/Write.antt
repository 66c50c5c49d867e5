-- ===== src/Persist/Write.antt =====
-- The writing half of persist.rs. Every function gives the bytes that it writes.
use vexdb.Prelude.{
  ℕ, ◌%◌, ◌^◌, ◌&&◌, Option, none, some, List, [], ◌∷◌, ◌++◌, length, leb, ltb, if◌then◌else◌,
}
use vexdb.Platform.{Platform}
use vexdb.Distance.Metric.{DistanceMetric}
use vexdb.Distance.Tags.{to_tag}
use vexdb.Flat.{FlatIndex, Entry}
use vexdb.Hnsw.{HnswIndex, Node}
use vexdb.Persist.Format.{
  Result, ok, err, corrupt, magic, format_version, type_flat, type_hnsw, max_payload_bytes,
  no_entry, to_le_bytes,
}

infixl 5 ◌>>=◌
abbrev pub ◌>>=◌ {ℓ κ} : {A : Type ℓ} {B : Type κ} → Result A → (A → Result B) → Result B
ok a >>= f = f a
err e >>= f = err e

abbrev pub put_u32 : ℕ → List ℕ
put_u32 v = to_le_bytes 4 v

abbrev pub put_u64 : ℕ → List ℕ
put_u64 v = to_le_bytes 8 v

module _ ⦃p : Platform⦄ where
  open p use {F32, Value, to_bits, to_vec_v}

  unfoldable pub put_f32_slice : List F32 → List ℕ
  put_f32_slice [] = []
  put_f32_slice (v ∷ vs) = to_le_bytes 4 (to_bits v) ++ put_f32_slice vs

  unfoldable pub put_payload : Option Value → Result (List ℕ)
  put_payload none = ok (put_u32 0)
  put_payload (some v) = elim (to_vec_v v) [
    | none ↦ err (corrupt "unserializable payload")
    | some bytes ↦
        if ltb 0 (length bytes) && leb (length bytes) max_payload_bytes
        then ok (put_u32 (length bytes) ++ bytes)
        else err (corrupt "payload exceeds 16 MiB limit")
  ]

  unfoldable pub write_header : ℕ → DistanceMetric → ℕ → List ℕ
  write_header index_type metric dim =
      magic
      ++ (put_u32 format_version
          ++ ((index_type ∷ to_tag metric ∷ []) ++ (to_le_bytes 2 0 ++ put_u64 dim)))

  unfoldable pub write_entries : List Entry → Result (List ℕ)
  write_entries [] = ok []
  write_entries (e ∷ es) = do
    payload ← put_payload e.payload
    rest ← write_entries es
    ok (put_u64 e.id ++ (payload ++ (put_f32_slice e.vector.values ++ rest)))

  unfoldable pub write_flat : FlatIndex → Result (List ℕ)
  write_flat index = do
    entries ← write_entries index.entries
    ok (
        write_header type_flat index.metric index.dim
        ++ (put_u64 (length index.entries) ++ entries))

  unfoldable pub write_u32s : List ℕ → List ℕ
  write_u32s [] = []
  write_u32s (n ∷ ns) = put_u32 n ++ write_u32s ns

  -- `len as u32` keeps the low 32 bits.
  unfoldable pub write_layers : List (List ℕ) → List ℕ
  write_layers [] = []
  write_layers (layer ∷ layers) =
      put_u32 (length layer % 2 ^ 32) ++ (write_u32s layer ++ write_layers layers)

  unfoldable pub write_nodes : List Node → Result (List ℕ)
  write_nodes [] = ok []
  write_nodes (node ∷ nodes) = do
    payload ← put_payload node.payload
    rest ← write_nodes nodes
    ok (
        put_u64 node.id
        ++ (((if node.deleted then 1 else 0) ∷ [])
            ++ (put_u32 (length node.neighbors % 2 ^ 32)
                ++ (write_layers node.neighbors
                    ++ (payload ++ (put_f32_slice node.vector.values ++ rest))))))

  -- The body of a graph index up to its nodes.
  unfoldable pub write_hnsw_head : HnswIndex → List ℕ
  write_hnsw_head index =
      put_u64 index.config.m
      ++ (put_u64 index.config.ef_construction
          ++ (put_u64 index.config.ef_search
              ++ (put_u64 index.config.seed
                  ++ (put_u64 index.rng_state
                      ++ (put_u64 (elim index.entry_point [ none ↦ no_entry | some ep ↦ ep ])
                          ++ (put_u64 index.max_layer
                              ++ (put_u64 index.live_count ++ put_u64 (length index.nodes))))))))

  unfoldable pub write_hnsw : HnswIndex → Result (List ℕ)
  write_hnsw index = do
    nodes ← write_nodes index.nodes
    ok (write_header type_hnsw index.metric index.dim ++ (write_hnsw_head index ++ nodes))
