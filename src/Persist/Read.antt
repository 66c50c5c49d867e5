-- ===== src/Persist/Read.antt =====
-- The reading half of persist.rs. A reader takes the bytes that are left and returns a value with
-- the bytes behind it, or the error that stops the load.
use Prim.Native.Nat.{min}
use vexdb.Prelude.{
  ℕ, zero, suc, ◌+◌, ◌*◌, Bool, true, false, not, ◌&&◌, ◌||◌, Option, none, some, List, [], ◌∷◌,
  ◌++◌, String, length, take, drop, leb, ltb, ◌==◌, if◌then◌else◌,
}
use vexdb.Platform.{Platform}
use vexdb.Error.{VectorId}
use vexdb.Vector
use vexdb.Vector.{Vector}
use vexdb.Distance.Metric.{DistanceMetric}
use vexdb.Distance.Tags.{from_tag}
use vexdb.Collections.Dict
use vexdb.Collections.Dict.{nat_eq}
use vexdb.Flat.{FlatIndex, Entry}
use vexdb.Hnsw.{HnswIndex, Node}
use vexdb.Persist.Format.{
  Result, ok, err, SnapshotError, io, bad_magic, unsupported_version, corrupt, magic,
  format_version, type_flat, type_hnsw, max_payload_bytes, max_layers, no_entry, from_le_bytes,
}

abbrev pub Reader : Type 0 → Type 0
Reader A = List ℕ → Result (A × List ℕ)

infixl 5 ◌>>=◌ ◌>>◌
abbrev pub ◌>>=◌ : {A B : Type 0} → Reader A → (A → Reader B) → Reader B
◌>>=◌ m f s = elim (m s) [ ok (a, s') ↦ f a s' | err e ↦ err e ]

abbrev pub ◌>>◌ : {B : Type 0} → Reader (Unit {0}) → Reader B → Reader B
m >> k = m >>= λ _. k

abbrev pub pure : {A : Type 0} → A → Reader A
pure a s = ok (a, s)

abbrev pub fail : {A : Type 0} → SnapshotError → Reader A
fail e s = err e

-- `if !test { return Err(corrupt(msg)) }`
abbrev pub check : Bool → String → Reader (Unit {0})
check true msg s = ok (tt, s)
check false msg s = err (corrupt msg)

abbrev same_bytes : List ℕ → List ℕ → Bool
same_bytes [] [] = true
same_bytes (x ∷ xs) (y ∷ ys) = x == y && same_bytes xs ys
same_bytes _ _ = false

unfoldable pub read_exact : ℕ → Reader (List ℕ)
read_exact n s = if leb n (length s) then ok (take n s, drop n s) else err io

unfoldable pub get_uint : ℕ → Reader ℕ
get_uint width = do bytes ← read_exact width; pure (from_le_bytes bytes)

abbrev pub get_u8 : Reader ℕ
get_u8 = get_uint 1

abbrev pub get_u16 : Reader ℕ
get_u16 = get_uint 2

abbrev pub get_u32 : Reader ℕ
get_u32 = get_uint 4

abbrev pub get_u64 : Reader ℕ
get_u64 = get_uint 8

module _ ⦃p : Platform⦄ where
  open p use {F32, Value, from_bits, from_slice_v, usize_max}

  -- `chunks_exact(4)` of `n` chunks, each an f32.
  unfoldable pub f32_chunks : ℕ → List ℕ → List F32
  f32_chunks zero bytes = []
  f32_chunks (suc n) bytes = from_bits (from_le_bytes (take 4 bytes)) ∷ f32_chunks n (drop 4 bytes)

  unfoldable pub get_f32_vec : ℕ → Reader (List F32)
  get_f32_vec n = do bytes ← read_exact (n * 4); pure (f32_chunks n bytes)

  unfoldable pub get_payload : Reader (Option Value)
  get_payload = do
    len ← get_u32
    if len == 0 then pure none else (do
      check (leb len max_payload_bytes) "payload length exceeds limit"
      bytes ← read_exact len
      elim (from_slice_v bytes) [
        | none ↦ fail (corrupt "payload is not valid JSON")
        | some value ↦ pure (some value)
      ])

  -- `usize::try_from(get_u64(r)?)`
  unfoldable pub get_usize : String → Reader ℕ
  get_usize msg = do v ← get_u64; check (leb v usize_max) msg; pure v

  pub record Header : Type 0 where
    pub index_type : ℕ
    pub metric : DistanceMetric
    pub dim : ℕ

  unfoldable pub read_header : Reader Header
  read_header = do
    found ← read_exact 8
    if not (same_bytes found magic) then fail bad_magic else (do
      version ← get_u32
      if not (version == format_version) then fail (unsupported_version version) else (do
        index_type ← get_u8
        check (index_type == type_flat || index_type == type_hnsw) "unknown index type tag"
        tag ← get_u8
        elim (from_tag tag) [
          | none ↦ fail (corrupt "unknown metric tag")
          | some metric ↦ do
            reserved ← get_u16
            check (reserved == 0) "reserved header bytes are not zero"
            dim ← get_usize "dim overflows usize"
            check (ltb 0 dim && leb dim 1_048_576) "implausible dim"
            pure (record { index_type = index_type; metric = metric; dim = dim })
        ]))

  -- `rounds` entries, from position `pos` on.
  unfoldable pub read_entries :
      ℕ → ℕ → ℕ → List Entry → List (VectorId × ℕ) → Reader (List Entry × List (VectorId × ℕ))
  read_entries zero dim pos entries id_to_pos = pure (entries, id_to_pos)
  read_entries (suc rounds) dim pos entries id_to_pos = do
    id ← get_u64
    payload ← get_payload
    values ← get_f32_vec dim
    check (not (Dict.contains_key id_to_pos id)) "duplicate id in flat snapshot"
    let e : Entry = record { id = id; vector = Vector.from_vec values; payload = payload }
    read_entries rounds dim (suc pos) (entries ++ (e ∷ [])) (Dict.insert id_to_pos id pos)

  unfoldable pub read_flat_body : Header → Reader FlatIndex
  read_flat_body header = do
    count ← get_usize "count overflows usize"
    (entries, id_to_pos) ← read_entries count header.dim 0 [] []
    pure (record {
      metric = header.metric;
      dim = header.dim;
      entries = entries;
      id_to_pos = id_to_pos;
    })

  unfoldable pub read_neighbors : ℕ → ℕ → Reader (List ℕ)
  read_neighbors zero node_count = pure []
  read_neighbors (suc n) node_count = do
    nb ← get_u32
    check (ltb nb node_count) "neighbor index exceeds node count"
    rest ← read_neighbors n node_count
    pure (nb ∷ rest)

  unfoldable pub read_layers : ℕ → ℕ → Reader (List (List ℕ))
  read_layers zero node_count = pure []
  read_layers (suc layers) node_count = do
    n ← get_u32
    check (leb n (min (node_count * 2) 0xffff_ffff)) "implausible neighbor list length"
    layer ← read_neighbors n node_count
    rest ← read_layers layers node_count
    pure (layer ∷ rest)

  unfoldable pub read_node : ℕ → ℕ → Reader Node
  read_node dim node_count = do
    id ← get_u64
    flag ← get_u8
    check (flag == 0 || flag == 1) "invalid deleted flag"
    layer_count ← get_u32
    check (ltb 0 layer_count && leb layer_count max_layers) "implausible layer count"
    neighbors ← read_layers layer_count node_count
    payload ← get_payload
    values ← get_f32_vec dim
    pure (record {
      id = id;
      vector = Vector.from_vec values;
      neighbors = neighbors;
      deleted = flag == 1;
      payload = payload;
    })

  -- The map points at the live node of an id, else at its first tombstone.
  abbrev pub map_node : Node → ℕ → List (VectorId × ℕ) → List (VectorId × ℕ)
  map_node node pos id_to_pos =
      if node.deleted
      then Dict.or_insert id_to_pos node.id pos
      else Dict.insert id_to_pos node.id pos

  unfoldable pub read_nodes :
      ℕ
      → ℕ
      → ℕ
      → ℕ
      → List Node
      → List (VectorId × ℕ)
      → ℕ
      → Reader (List Node × List (VectorId × ℕ) × ℕ)
  read_nodes zero dim node_count pos nodes id_to_pos live = pure (nodes, id_to_pos, live)
  read_nodes (suc rounds) dim node_count pos nodes id_to_pos live = do
    node ← read_node dim node_count
    read_nodes rounds dim node_count (suc pos) (nodes ++ (node ∷ [])) (map_node node pos id_to_pos)
        (if node.deleted then live else live + 1)

  -- The entry point: u64::MAX for none, else a position in the arena.
  unfoldable pub read_entry_point : ℕ → ℕ → Reader (Option ℕ)
  read_entry_point entry_raw node_count = if entry_raw == no_entry then pure none else (do
    check (leb entry_raw 0xffff_ffff) "entry point out of range"
    check (ltb entry_raw node_count) "entry point exceeds node count"
    pure (some entry_raw))

  unfoldable pub read_hnsw_body : Header → Reader HnswIndex
  read_hnsw_body header = do
    m ← get_usize "m overflows usize"
    ef_construction ← get_usize "ef_construction overflows usize"
    ef_search ← get_usize "ef_search overflows usize"
    seed ← get_u64
    rng_state ← get_u64
    check (ltb 0 m && leb m 65_536) "implausible m"
    entry_raw ← get_u64
    max_layer ← get_usize "max_layer overflows usize"
    live_count ← get_usize "live_count overflows usize"
    node_count ← get_u64
    check (leb node_count 0xffff_ffff) "node count exceeds u32 arena limit"
    check (ltb max_layer max_layers) "implausible max_layer"
    entry_point ← read_entry_point entry_raw node_count
    (nodes, id_to_pos, counted_live) ← read_nodes node_count header.dim node_count 0 [] [] 0
    check (counted_live == live_count) "live_count does not match the live nodes"
    pure (record {
      config = record {
        m = m;
        ef_construction = ef_construction;
        ef_search = ef_search;
        seed = seed;
      };
      metric = header.metric;
      dim = header.dim;
      nodes = nodes;
      id_to_pos = id_to_pos;
      entry_point = entry_point;
      max_layer = max_layer;
      live_count = live_count;
      rng_state = rng_state;
    })
