-- ===== src/Hnsw/Insertion.antt =====
-- `connect` on a well-formed graph: where the linking starts, and which node becomes the entry point.
use Prim.Native.Nat.{min}
use vexdb.Prelude.{
  get_elem?, ℕ, suc, ◌+◌, ◌-◌, ◌≤◌, ◌<◌, some, List, ◌≡◌, refl, sym, ◌∙◌, arith, length, Bool-cases,
  ◌⊎◌, inl, inr, ltb, if◌then◌else◌,
}
use vexdb.Platform.{Platform}
use vexdb.Platform.Laws.{FloatOrder}
use vexdb.Error.{VectorId, ok, panic, ◌>>=◌}
use vexdb.Collections.Dict
use vexdb.Collections.Dict.{nat_eq}
use vexdb.Hnsw.{HnswIndex, new, Node}
use vexdb.Hnsw.Trace.{noop_sink}
use vexdb.Hnsw.Search.{descend}
use vexdb.Hnsw.Insert.{connect, layers_of}
use vexdb.Hnsw.Graph.{HasLayer, IsGraph, Stands, far, dist_to_node-far}
use vexdb.Hnsw.SearchRun.{descend-ok}
use vexdb.Hnsw.Rewire.{IsWoven, IsRewired, Copied}
use vexdb.Hnsw.Push.{HasLayer-same, IsWoven-same}
use vexdb.Hnsw.Link.{Overfull}
use vexdb.Hnsw.Layering.{link_layers-ok}

module _ ⦃p : Platform⦄ where
  open p use {F32, Value, usize_max}

  -- A graph whose map leads into the arena.
  pub record IsIndex (idx : HnswIndex) : Type 0 where
    pub graph : IsGraph idx
    pub placed :
        (id : VectorId) (pos : ℕ) → Dict.get idx.id_to_pos id ≡ some pos → pos < length idx.nodes

  abbrev pub woven : (idx : HnswIndex) → IsGraph idx → IsWoven idx
  woven idx w = record { vectors = w.vectors; links = w.links }

  module _ (floats : FloatOrder p) (query : List F32) (new_pos level : ℕ)
      (whole : layers_of level ≡ suc level) where
    -- Where the linking starts: on the lower of the new node's highest layer and the graph's.
    started :
        (idx : HnswIndex)
        → IsGraph idx
        → length query ≡ idx.dim
        → (entry : ℕ) (d : F32) → Stands idx idx.max_layer query entry d
        → (at : ℕ × F32) × (s : Unit {0}) × (descend noop_sink idx query
              (layers_of level)
              (suc idx.max_layer - layers_of level)
              (entry, d)
              tt
            ≡ ok (at, s))
          × Stands idx (min level idx.max_layer) query at.0 at.1
    unfolding descend
    started idx w fits entry d stands = elim (Bool-cases (ltb idx.max_layer level)) [
      | inl above ↦
          let none_left : suc idx.max_layer - layers_of level ≡ 0 = rw whole (ground arith) in
          let lowest : min level idx.max_layer ≡ idx.max_layer = ground arith in
          ((entry, d), tt, rw none_left refl, rw lowest stands)
      | inr below ↦
          let left : suc idx.max_layer - suc level ≡ idx.max_layer - level = omega arith in
          let top : level + (idx.max_layer - level) ≡ idx.max_layer = ground arith in
          let lowest : min level idx.max_layer ≡ level = ground arith in
          let (at, s, run, end) =
            descend-ok floats idx w query fits noop_sink level (idx.max_layer - level) (entry, d) tt
              (rw top stands) in
          (at, s, rw (whole, left) run, rw lowest end)
    ]

    pub record Keeps (idx idx' : HnswIndex) : Type 0 where
      pub graph : IsGraph idx'
      pub same_map : idx'.id_to_pos ≡ idx.id_to_pos
      pub same_live : idx'.live_count ≡ idx.live_count
      pub size : length idx'.nodes ≡ length idx.nodes
      pub same_dim : idx'.dim ≡ idx.dim
      pub same_config : idx'.config ≡ idx.config
      pub copied :
          (n : ℕ) (node : Node) → get_elem? idx.nodes n ≡ some node → Copied node idx'.nodes n

    -- The new node becomes the entry point only where it is above the graph.
    raised :
        (idx idx' : HnswIndex)
        → IsGraph idx
        → IsWoven idx'
        → IsRewired idx idx'
        → ((layer : ℕ) → layer ≤ level → HasLayer idx layer new_pos)
        → Keeps idx (
            if ltb idx.max_layer level
            then record idx' { max_layer = level; entry_point = some new_pos }
            else idx')
    raised idx idx' w w' r new = elim (Bool-cases (ltb idx.max_layer level)) [
      | inl above ↦ rw above (record {
        graph =
            let top : HnswIndex = record idx' { max_layer = level; entry_point = some new_pos } in
            let same = IsWoven-same idx' top refl refl w' in
            record {
              vectors = same.vectors;
              links = same.links;
              entry = λ ep layer at low.
                  let e : new_pos ≡ ep = cc in
                  HasLayer-same idx' top layer ep refl
                    (rw (← e) (r.still layer new_pos (new layer low)).after);
            };
        same_map = r.same_map;
        same_live = r.same_live;
        size = r.size;
        same_dim = r.same_dim;
        same_config = r.same_config;
        copied = r.copied;
      })
      | inr below ↦ rw below (record {
        graph = record {
          vectors = w'.vectors;
          links = w'.links;
          entry = λ ep layer at low.
              (r.still layer ep
                (w.entry ep layer (sym r.same_entry ∙ at) (rw (← r.same_top) low))).after;
        };
        same_map = r.same_map;
        same_live = r.same_live;
        size = r.size;
        same_dim = r.same_dim;
        same_config = r.same_config;
        copied = r.copied;
      })
    ]

    pub connect-ok :
        (idx : HnswIndex)
        → IsGraph idx
        → length query ≡ idx.dim
        → 1 ≤ idx.config.ef_construction
        → (entry : ℕ) → idx.entry_point ≡ some entry
        → ((layer : ℕ) → layer ≤ level → HasLayer idx layer new_pos)
        → (Overfull idx × (connect idx query new_pos level entry ≡ panic))
          ⊎ ((idx' : HnswIndex) × (connect idx query new_pos level entry ≡ ok idx')
              × Keeps idx idx')
    unfolding connect
    connect-ok idx w fits positive entry entered new =
        let top = w.entry entry idx.max_layer entered (omega arith) in
        let d = far idx.metric query top.node in
        let measured = dist_to_node-far idx w.vectors query fits entry top.node top.at in
        let (at, s, run, stands) =
          started idx w fits entry d (record { there = top; measured = refl }) in
        let lowest = min level idx.max_layer in
        let low : lowest ≤ level = ground arith in
        elim (link_layers-ok floats query new_pos idx (woven idx w) fits positive lowest at
          (new lowest low) stands) [
            | inl (full, stop) ↦ inl (full, simp (measured, run, stop, ◌>>=◌))
            | inr (idx', linked, w', r) ↦
                inr (_, simp (measured, run, linked, ◌>>=◌), raised idx idx' w w' r new)
          ]
