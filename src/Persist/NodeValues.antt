-- ===== src/Persist/NodeValues.antt =====
-- The nodes of a graph snapshot: neighbour lists, layers, and the loop over the arena.
use Prim.Native.Nat.{min}
use native.Mathlib.Nat.{add-zero}
use mathlib.Core.List.{append_assoc, append-nil}
use vexdb.Prelude.{
  ℕ, suc, ◌+◌, ◌*◌, ◌%◌, ◌^◌, ◌≤◌, ◌<◌, true, ◌&&◌, ◌||◌, List, [], ◌∷◌, ◌++◌, ◌≡◌, refl, arith,
  length, leb, ltb, ◌==◌, All, if◌then◌else◌, sym,
}
use vexdb.Platform.{Platform}
use vexdb.Platform.Laws.{FloatBits, ParsesBack}
use vexdb.Error.{VectorId}
use vexdb.Hnsw.{Node}
use vexdb.Hnsw.Tombstones.{live_nodes}
use vexdb.Persist.Format.{ok, max_layers}
use vexdb.Persist.Write.{
  put_u32, put_u64, put_payload, put_f32_slice, write_u32s, write_layers, write_nodes,
}
use vexdb.Persist.Read.{◌>>=◌, read_neighbors, read_layers, read_node, read_nodes, map_node}
use vexdb.Persist.Bytes.{Reads, get_uint-Reads, ok_injective, write_ok}
use vexdb.Persist.Values.{get_f32_vec-Reads, get_payload-Reads, get_u8-Reads}

module _ ⦃p : Platform⦄ where
  -- A list of neighbours that the format can hold, in an arena of `count` nodes.
  abbrev pub IsNeighbors : ℕ → List ℕ → Type 0
  IsNeighbors count layer =
      (length layer ≤ min (count * 2) 0xffff_ffff) × All (λ nb. nb < count) layer

  -- What the format asks of a node.
  pub record IsStorableNode (dim count : ℕ) (node : Node) : Type 0 where
    pub id_bound : node.id < 2 ^ 64
    pub sized : length node.vector.values ≡ dim
    pub some_layer : 0 < length node.neighbors
    pub few_layers : length node.neighbors ≤ max_layers
    pub linked : All (IsNeighbors count) node.neighbors
    pub payload : ParsesBack p node.payload

  -- The map after the nodes from `pos` on.
  abbrev pub mapped : ℕ → List Node → List (VectorId × ℕ) → List (VectorId × ℕ)
  mapped pos [] m = m
  mapped pos (node ∷ nodes) m = mapped (suc pos) nodes (map_node node pos m)

  module _ (count : ℕ) (arena : count ≤ 0xffff_ffff) where
    read_neighbors-Reads :
        (layer : List ℕ)
        → All (λ nb. nb < count) layer
        → Reads (read_neighbors (length layer) count) (write_u32s layer) layer
    unfolding read_neighbors write_u32s
    read_neighbors-Reads [] inside rest = refl
    read_neighbors-Reads (nb ∷ layer) inside rest =
        let known : ltb nb count ≡ true = ground (arith, inside.0) in
        simp (
          append_assoc,
          get_uint-Reads 4 nb (omega (arith, inside.0)),
          known,
          read_neighbors-Reads layer inside.1,
          ◌>>=◌,
        )

    read_layers-Reads :
        (layers : List (List ℕ))
        → All (IsNeighbors count) layers
        → Reads (read_layers (length layers) count) (write_layers layers) layers
    unfolding read_layers write_layers
    read_layers-Reads [] fits rest = refl
    read_layers-Reads (layer ∷ layers) fits rest =
        let small : length layer ≤ 0xffff_ffff = ground (arith, fits.0.0) in
        let word : length layer % 2 ^ 32 ≡ length layer = omega arith in
        let plausible : leb (length layer) (min (count * 2) 0xffff_ffff) ≡ true =
          ground (arith, fits.0.0) in
        simp (
          append_assoc,
          word,
          get_uint-Reads 4 (length layer) (omega arith),
          plausible,
          read_neighbors-Reads layer fits.0.1,
          read_layers-Reads layers fits.1,
          ◌>>=◌,
        )

    module _ (bits : FloatBits p) (dim : ℕ) where
      abbrev node_bytes : Node → List ℕ → List ℕ → List ℕ
      node_bytes node payload rest =
          put_u64 node.id
          ++ (((if node.deleted then 1 else 0) ∷ [])
              ++ (put_u32 (length node.neighbors % 2 ^ 32)
                  ++ (write_layers node.neighbors
                      ++ (payload ++ (put_f32_slice node.vector.values ++ rest)))))

      -- A node, in front of any bytes.
      read_node-bytes :
          (node : Node) (payload rest : List ℕ)
          → IsStorableNode dim count node
          → put_payload node.payload ≡ ok payload
          → read_node dim count (node_bytes node payload rest) ≡ ok (node, rest)
      unfolding read_node
      read_node-bytes node payload rest w written =
          let word : length node.neighbors % 2 ^ 32 ≡ length node.neighbors =
            omega (arith, w.few_layers) in
          let plausible : (ltb 0 (length node.neighbors) && leb (length node.neighbors) max_layers)
              ≡ true =
            ground (arith, w.some_layer, w.few_layers) in
          let values = rw w.sized at (get_f32_vec-Reads bits node.vector.values) in
          let flag : ℕ = if node.deleted then 1 else 0 in
          let flagged : (flag == 0 || node.deleted) ≡ true = ground arith in
          let same : (flag == 1) ≡ node.deleted = ground arith in
          simp (
            word,
            get_uint-Reads 8 node.id w.id_bound,
            get_u8-Reads flag (ground arith),
            flagged,
            same,
            get_uint-Reads 4 (length node.neighbors) (omega (arith, w.few_layers)),
            plausible,
            read_layers-Reads node.neighbors w.linked,
            get_payload-Reads node.payload w.payload written,
            values,
            ◌>>=◌,
          )

      write_nodes_ok :
          (node : Node) (nodes : List Node) {bytes : List ℕ}
          → write_nodes (node ∷ nodes) ≡ ok bytes
          → (payload rest : List ℕ) × (put_payload node.payload ≡ ok payload)
            × (write_nodes nodes ≡ ok rest)
            × (bytes ≡ node_bytes node payload rest)
      unfolding write_nodes
      write_nodes_ok node nodes h =
          let (payload, e₁, h₁) = write_ok (put_payload node.payload) _ h in
          let (rest, e₂, h₂) = write_ok (write_nodes nodes) _ h₁ in
          (payload, rest, e₁, e₂, sym (ok_injective h₂))

      -- The arena reads back, with the map and the live count that its nodes give.
      pub read_nodes-Reads :
          (nodes : List Node) (pos : ℕ) (acc : List Node) (m : List (VectorId × ℕ)) (live : ℕ)
          {bytes : List ℕ}
          → All (IsStorableNode dim count) nodes
          → write_nodes nodes ≡ ok bytes
          → Reads
              (read_nodes (length nodes) dim count pos acc m live)
              bytes
              (acc ++ nodes, mapped pos nodes m, live + live_nodes nodes)
      unfolding read_nodes live_nodes write_nodes
      read_nodes-Reads [] pos acc m live w h rest =
          rw (← ok_injective h) (simp (append-nil, add-zero))
      read_nodes-Reads (node ∷ nodes) pos acc m live w h rest =
          let (payload, tail, e₁, e₂, whole) = write_nodes_ok node nodes h in
          let total : live + (if node.deleted then live_nodes nodes else suc (live_nodes nodes))
              ≡ (if node.deleted then live else live + 1) + live_nodes nodes =
            ground arith in
          let others =
            read_nodes-Reads nodes (suc pos) (acc ++ (node ∷ [])) (map_node node pos m)
              (if node.deleted then live else live + 1) w.1 e₂ rest in
          let bytes' : node_bytes node payload tail ++ rest
              ≡ node_bytes node payload (tail ++ rest) =
            simp (append_assoc) in
          rw (whole, bytes', read_node-bytes node payload (tail ++ rest) w.0 e₁, ◌>>=◌)
            (simp (others, total, append_assoc))
