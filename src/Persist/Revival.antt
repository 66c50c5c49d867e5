-- ===== src/Persist/Revival.antt =====
-- A graph index after its snapshot was written and read.
use vexdb.Prelude.{ℕ, Option, List, ◌++◌, ◌≡◌, refl}
use vexdb.Platform.{Platform}
use vexdb.Platform.Laws.{FloatBits, UsizeWidth}
use vexdb.Error.{VectorId}
use vexdb.Payload.{Filter}
use vexdb.Collections.Vec.{lt_of_get_elem?}
use vexdb.Hnsw.{HnswIndex}
use vexdb.Hnsw.Search.{search_filtered_with_ef, search_exact}
use vexdb.Hnsw.Filed.{SaysSame}
use vexdb.Hnsw.Push.{HasLayer-same, IsWoven-same}
use vexdb.Hnsw.Insertion.{IsIndex, woven}
use vexdb.Hnsw.Ledger.{IsLedger}
use vexdb.Hnsw.Nameless.{search_filtered_with_ef-same, search_exact-same}
use vexdb.Persist.Format.{ok}
use vexdb.Persist.Any.{hnsw, read_any, write_to}
use vexdb.Persist.HnswRoundTrip.{IsStorable, read_any-write_hnsw}

module _ ⦃p : Platform⦄ where
  open p use {F32}

  -- The index differs in its map at most, is well formed, and answers every call the same.
  pub record IsRevived (idx idx' : HnswIndex) : Type 0 where
    pub same : idx' ≡ record idx { id_to_pos = idx'.id_to_pos }
    pub index : IsIndex idx'
    pub ledger : IsLedger idx'
    pub lookups : (j : VectorId) → SaysSame idx' idx j
    pub searches :
        (query : List F32) (k ef : ℕ) (filter : Option Filter)
        → search_filtered_with_ef idx' query k ef filter
          ≡ search_filtered_with_ef idx query k ef filter
    pub exact_searches :
        (query : List F32) (k : ℕ) (filter : Option Filter)
        → search_exact idx' query k filter ≡ search_exact idx query k filter

  -- A graph snapshot reads back. Where f32 bit patterns and usize behave as documented, for
  -- an index whose graph is well formed, whose map leads into the arena, knows every node's id and
  -- leads to the live node of an id where there is one, whose live nodes are counted, and which is within
  -- the limits of the format, each of whose payloads its JSON text parses to: what was written as its snapshot reads back, with the bytes behind it left
  -- unread, as an index that differs in its map at most, has all these properties again, says the same of
  -- every id, and gives the same outcome for every approximate and exact search.
  pub read_any-IsRevived :
      FloatBits p
      → UsizeWidth p
      → (idx : HnswIndex) → IsIndex idx
      → IsLedger idx
      → IsStorable idx
      → (bytes : List ℕ) → write_to (hnsw idx) ≡ ok bytes
      → (rest : List ℕ)
      → (idx' : HnswIndex) × (read_any (bytes ++ rest) ≡ ok (hnsw idx', rest)) × IsRevived idx idx'
  read_any-IsRevived bits width idx w ledger storable bytes h rest =
      let (names, run, filed, says) =
        read_any-write_hnsw bits width idx storable ledger.filed ledger.counted bytes h rest in
      let idx' : HnswIndex = record idx { id_to_pos = names } in
      let woven' = IsWoven-same idx idx' refl refl (woven idx w.graph) in
      (
        idx',
        run,
        record {
          same = refl;
          index = record {
            graph = record {
              vectors = woven'.vectors;
              links = woven'.links;
              entry = λ ep layer at low.
                  HasLayer-same idx idx' layer ep refl (w.graph.entry ep layer at low);
            };
            placed = λ id pos at.
                let (node, there, _) = filed.found id pos at in lt_of_get_elem? idx.nodes pos there;
          };
          ledger = record { filed = filed; counted = ledger.counted };
          lookups = says;
          searches = search_filtered_with_ef-same idx names;
          exact_searches = search_exact-same idx names;
        },
      )
