-- ===== src/Persist/HnswRoundTrip.antt =====
-- The snapshot of a graph index, written and read.
use mathlib.Core.List.{append_assoc}
use vexdb.Prelude.{
  ℕ, ◌+◌, ◌^◌, ◌≤◌, ◌<◌, true, false, ◌&&◌, Option, none, some, List, [], ◌++◌, ◌≡◌, refl, arith,
  length, ◌==◌, leb, ltb, inr, All,
}
use vexdb.Platform.{Platform}
use vexdb.Platform.Laws.{FloatBits, UsizeWidth}
use vexdb.Error.{VectorId}
use vexdb.Hnsw.{HnswIndex}
use vexdb.Hnsw.Filed.{IsFiled, IsFiled-SaysSame, SaysSame}
use vexdb.Hnsw.Tombstones.{live_nodes}
use vexdb.Persist.Format.{ok, type_flat, type_hnsw, no_entry, max_layers}
use vexdb.Persist.Write.{write_nodes, write_hnsw, write_hnsw_head, write_header}
use vexdb.Persist.Read.{read_hnsw_body, read_entry_point, ◌>>=◌}
use vexdb.Persist.Any.{hnsw, read_any, write_to}
use vexdb.Persist.Bytes.{Reads, get_uint-Reads, ok_injective, write_ok}
use vexdb.Persist.Values.{get_usize-Reads, read_header-Reads}
use vexdb.Persist.NodeValues.{IsStorableNode, mapped, read_nodes-Reads}
use vexdb.Persist.NodeMap.{read_map-IsFiled}

-- What the types and the limits of the format ask of a graph index.
pub record IsStorable ⦃p : Platform⦄ (idx : HnswIndex) : Type 0 where
  pub dim_pos : 0 < idx.dim
  pub dim_max : idx.dim ≤ 1_048_576
  pub dim_usize : idx.dim ≤ p.usize_max
  pub m_pos : 0 < idx.config.m
  pub m_max : idx.config.m ≤ 65_536
  pub m_usize : idx.config.m ≤ p.usize_max
  pub ef_construction_usize : idx.config.ef_construction ≤ p.usize_max
  pub ef_search_usize : idx.config.ef_search ≤ p.usize_max
  pub seed_word : idx.config.seed < 2 ^ 64
  pub rng_state_word : idx.rng_state < 2 ^ 64
  pub max_layer_usize : idx.max_layer ≤ p.usize_max
  pub few_layers : idx.max_layer < max_layers
  pub live_count_usize : idx.live_count ≤ p.usize_max
  pub arena : length idx.nodes ≤ 0xffff_ffff
  pub entered : (ep : ℕ) → idx.entry_point ≡ some ep → ep < length idx.nodes
  pub nodes : All (IsStorableNode idx.dim (length idx.nodes)) idx.nodes

module _ ⦃p : Platform⦄ where
  abbrev entry_raw : Option ℕ → ℕ
  entry_raw entry = elim entry [ none ↦ no_entry | some ep ↦ ep ]

  -- The entry point is kept as a number, u64::MAX for none.
  entry_word :
      (entry : Option ℕ) (count : ℕ)
      → count ≤ 0xffff_ffff
      → ((ep : ℕ) → entry ≡ some ep → ep < count)
      → (entry_raw entry < 256 ^ 8)
        × ((rest : List ℕ) → read_entry_point (entry_raw entry) count rest ≡ ok (entry, rest))
  unfolding read_entry_point
  entry_word none count arena inside = (omega arith, λ rest. refl)
  entry_word (some ep) count arena inside =
      let low = inside ep refl in
      let known : ltb ep count ≡ true = ground (arith, low) in
      let word : leb ep 0xffff_ffff ≡ true = ground (arith, low) in
      let some_entry : (ep == no_entry) ≡ false = ground (arith, low) in
      (omega (arith, low), λ rest. simp (some_entry, word, known, ◌>>=◌))

  module _ (bits : FloatBits p) (width : UsizeWidth p) (idx : HnswIndex)
      (storable : IsStorable idx) where
    -- The index that reading gives.
    abbrev reread : HnswIndex
    reread = record idx { id_to_pos = mapped 0 idx.nodes [] }

    body-Reads :
        (nb : List ℕ)
        → idx.live_count ≡ live_nodes idx.nodes
        → write_nodes idx.nodes ≡ ok nb
        → Reads
            (read_hnsw_body (record { index_type = type_hnsw; metric = idx.metric; dim = idx.dim }))
            (write_hnsw_head idx ++ nb)
            reread
    unfolding read_hnsw_body write_hnsw_head
    body-Reads nb counted written rest =
        let (word, entry) =
          entry_word idx.entry_point (length idx.nodes) storable.arena storable.entered in
        let plausible_m : (ltb 0 idx.config.m && leb idx.config.m 65_536) ≡ true =
          ground (arith, storable.m_pos, storable.m_max) in
        let arena : leb (length idx.nodes) 0xffff_ffff ≡ true = ground (arith, storable.arena) in
        let layers : ltb idx.max_layer max_layers ≡ true = ground (arith, storable.few_layers) in
        let live : (0 + live_nodes idx.nodes == idx.live_count) ≡ true = ground (arith, counted) in
        simp (
          append_assoc,
          get_usize-Reads width idx.config.m "m overflows usize" storable.m_usize,
          get_usize-Reads width idx.config.ef_construction "ef_construction overflows usize"
              storable.ef_construction_usize,
          get_usize-Reads width idx.config.ef_search "ef_search overflows usize"
              storable.ef_search_usize,
          get_uint-Reads 8 idx.config.seed storable.seed_word,
          get_uint-Reads 8 idx.rng_state storable.rng_state_word,
          plausible_m,
          get_uint-Reads 8 (entry_raw idx.entry_point) word,
          get_usize-Reads width idx.max_layer "max_layer overflows usize" storable.max_layer_usize,
          get_usize-Reads width idx.live_count "live_count overflows usize"
              storable.live_count_usize,
          get_uint-Reads 8 (length idx.nodes) (omega (arith, storable.arena)),
          arena,
          layers,
          entry,
          read_nodes-Reads (length idx.nodes) storable.arena bits idx.dim idx.nodes 0 [] [] 0
              storable.nodes written,
          live,
          ◌>>=◌,
        )

    snapshot-Reads :
        (nb : List ℕ)
        → idx.live_count ≡ live_nodes idx.nodes
        → write_nodes idx.nodes ≡ ok nb
        → Reads read_any
            (write_header type_hnsw idx.metric idx.dim ++ (write_hnsw_head idx ++ nb))
            (hnsw reread)
    unfolding read_any
    snapshot-Reads nb counted written rest =
        let kind : (type_hnsw == type_flat) ≡ false = ground arith in
        simp (
          append_assoc (write_header type_hnsw idx.metric idx.dim) (write_hnsw_head idx ++ nb) rest,
          read_header-Reads width type_hnsw idx.metric idx.dim (inr refl) storable.dim_pos
              storable.dim_max storable.dim_usize,
          kind,
          body-Reads nb counted written,
          read_any,
        )

    -- A graph snapshot reads back.
    pub read_any-write_hnsw :
        IsFiled (length idx.nodes) idx.nodes idx.id_to_pos
        → idx.live_count ≡ live_nodes idx.nodes
        → (bytes : List ℕ) → write_to (hnsw idx) ≡ ok bytes
        → (rest : List ℕ)
        → (names : List (VectorId × ℕ)) × (read_any (bytes ++ rest)
            ≡ ok (hnsw (record idx { id_to_pos = names }), rest))
          × IsFiled (length idx.nodes) idx.nodes names
          × ((j : VectorId) → SaysSame (record idx { id_to_pos = names }) idx j)
    unfolding write_hnsw
    read_any-write_hnsw filed counted bytes h rest =
        let (nb, written, whole) = write_ok (write_nodes idx.nodes) _ h in
        let filed' = read_map-IsFiled idx.nodes idx.id_to_pos filed in
        (
          mapped 0 idx.nodes [],
          rw (ok_injective whole) at (snapshot-Reads nb counted written rest),
          filed',
          IsFiled-SaysSame idx reread refl filed filed',
        )
