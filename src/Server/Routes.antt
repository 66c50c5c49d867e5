-- ===== src/Server/Routes.antt =====
-- crates/vex-server/src/routes.rs: the handlers. A handler takes the state and returns the state after
-- it, with its reply.
use Prim.Native.Nat.{min, max}
use vexdb.Prelude.{
  ℕ, Bool, true, false, not, ◌||◌, Option, none, some, List, [], ◌∷◌, String, length, ltb, ◌==◌,
  if◌then◌else◌,
}
use vexdb.Platform.{Platform}
use vexdb.Error
use vexdb.Error.{VectorId, Outcome, ◌>>=◌}
use vexdb.Vector
use vexdb.Payload.{Filter}
use vexdb.Index.{SearchResult}
use vexdb.Distance.Metric.{DistanceMetric}
use vexdb.Collections.Dict
use vexdb.Collections.Dict.{string_eq}
use vexdb.Flat
use vexdb.Hnsw
use vexdb.Hnsw.{default_config}
use vexdb.Persist.Any
use vexdb.Persist.Any.{AnyIndex, flat, hnsw}
use vexdb.Server.{
  bad_request, not_found, conflict, read_only, internal, Reply, done, failed, panicked, stuck,
  from_vex, Files, snapshot, Collection, AppState, new, validate_name, flush, get,
}

abbrev pub max_k : ℕ
max_k = 1_024

abbrev pub max_ef : ℕ
max_ef = 100_000

abbrev pub max_batch : ℕ
max_batch = 10_000

abbrev pub max_dim : ℕ
max_dim = 65_536

pub record CreateCollection : Type 0 where
  pub dim : ℕ
  pub metric : DistanceMetric
  pub index : String
  pub m : ℕ
  pub ef_construction : ℕ
  pub ef_search : ℕ

pub record PointInput ⦃p : Platform⦄ : Type 0 where
  pub id : VectorId
  pub vector : List p.F32
  pub payload : Option p.Value

pub record SearchRequest ⦃p : Platform⦄ : Type 0 where
  pub query : List p.F32
  pub k : ℕ
  pub ef : Option ℕ
  pub filter : Option Filter
  pub with_payload : Bool

pub record SearchHit ⦃p : Platform⦄ : Type 0 where
  pub id : VectorId
  pub distance : p.F32
  pub payload : Option p.Value

pub record CollectionStats : Type 0 where
  pub name : String
  pub index : String
  pub dim : ℕ
  pub metric : DistanceMetric
  pub count : ℕ

module _ ⦃p : Platform⦄ where
  abbrev pub stats : Collection → CollectionStats
  stats c = record {
    name = c.name;
    index = Any.type_name c.index;
    dim = Any.dim c.index;
    metric = Any.metric c.index;
    count = Any.len c.index;
  }

  -- `call?` under the write lock: on an error the index is what the calls before made of it.
  abbrev pub attempt :
      {A B : Type 0} → AnyIndex → Outcome A → (A → AnyIndex × Reply B) → AnyIndex × Reply B
  attempt index (Error.ok a) next = next a
  attempt index (Error.err e) next = (index, failed (from_vex e))
  attempt index Error.panic next = (index, panicked)
  attempt index Error.stuck next = (index, stuck)

  -- The loop that replaces or adds each point.
  unfoldable pub apply_points : AnyIndex → ℕ → List PointInput → AnyIndex × Reply (Unit {0})
  apply_points index dim [] = (index, done tt)
  apply_points index dim (pt ∷ pts) = attempt index (Any.remove index pt.id) λ (index₁, removed).
      attempt index₁ (Vector.new pt.vector dim) λ v.
        attempt index₁ (Any.add_with_payload index₁ pt.id v pt.payload)
          λ index₂. apply_points index₂ dim pts

  -- `req.points.iter().all(..)`: no point has a vector of another dimension.
  unfoldable pub all_sized : ℕ → List PointInput → Bool
  all_sized dim [] = true
  all_sized dim (pt ∷ pts) = if length pt.vector == dim then all_sized dim pts else false

  unfoldable pub to_hits : AnyIndex → Bool → List SearchResult → Outcome (List SearchHit)
  to_hits index with_payload [] = Error.ok []
  to_hits index with_payload (r ∷ rs) = do
    payload ← (if with_payload then Any.payload index r.id else Error.ok none)
    rest ← to_hits index with_payload rs
    Error.ok (record { id = r.id; distance = r.distance; payload = payload } ∷ rest)

  abbrev pub reply_of : {A : Type 0} → Outcome A → Reply A
  reply_of (Error.ok a) = done a
  reply_of (Error.err e) = failed (from_vex e)
  reply_of Error.panic = panicked
  reply_of Error.stuck = stuck

  unfoldable pub new_index : CreateCollection → Reply AnyIndex
  new_index req =
      if Dict.string_eq.beq req.index "flat"
      then done (flat (Flat.new req.dim req.metric))
      else if Dict.string_eq.beq req.index "hnsw"
      then (if req.m == 0 || ltb 256 req.m
          then failed (bad_request "m must be 1..=256")
          else done (
              hnsw (
                Hnsw.new req.dim req.metric (record default_config {
                  m = req.m;
                  ef_construction = min (max req.ef_construction 1) max_ef;
                  ef_search = min (max req.ef_search 1) max_ef;
                }))))
      else failed (bad_request "unknown index type")

  module _ {Disk : Type 0} where
    -- The collection of a name after a handler has changed it.
    abbrev pub update : AppState Disk → String → Collection → AppState Disk
    update state name c = record state { collections = Dict.insert state.collections name c }

    -- The end of an upsert: the index as the loop left it, and the dirty flag if the loop came through.
    unfoldable pub write_back :
        AppState Disk
        → String
        → Collection
        → ℕ
        → AnyIndex × Reply (Unit {0})
        → AppState Disk × Reply ℕ
    write_back state name c count (index, done _) =
        (update state name (record c { index = index; dirty = true }), done count)
    write_back state name c count (index, failed e) =
        (update state name (record c { index = index }), failed e)
    write_back state name c count (index, panicked) =
        (update state name (record c { index = index }), panicked)
    write_back state name c count (index, stuck) =
        (update state name (record c { index = index }), stuck)

    unfoldable pub upsert_points :
        AppState Disk → String → List PointInput → AppState Disk × Reply ℕ
    upsert_points state name points =
        if state.is_read_only
        then (state, failed read_only)
        else if length points == 0
        then (state, failed (bad_request "points must not be empty"))
        else if ltb max_batch (length points)
        then (state, failed (bad_request "batch too large"))
        else elim (get state name) [
          | none ↦ (state, failed not_found)
          | some c ↦
              let dim = Any.dim c.index in
              if not (all_sized dim points)
              then (state, failed (bad_request "dimension mismatch"))
              else write_back state name c (length points) (apply_points c.index dim points)
        ]

    -- The end of a deletion, with what the removal came to.
    unfoldable pub finish_delete :
        AppState Disk → String → Collection → Outcome (AnyIndex × Bool) → AppState Disk × Reply Bool
    finish_delete state name c (Error.ok (index, removed)) = (
      update state name (record c { index = index; dirty = if removed then true else c.dirty }),
      done removed,
    )
    finish_delete state name c (Error.err e) = (state, failed (from_vex e))
    finish_delete state name c Error.panic = (state, panicked)
    finish_delete state name c Error.stuck = (state, stuck)

    unfoldable pub delete_point : AppState Disk → String → VectorId → AppState Disk × Reply Bool
    delete_point state name id =
        if state.is_read_only then (state, failed read_only) else elim (get state name) [
          | none ↦ (state, failed not_found)
          | some c ↦ finish_delete state name c (Any.remove c.index id)
        ]

    unfoldable pub search : AppState Disk → String → SearchRequest → Reply (List SearchHit)
    search state name req =
        if req.k == 0 || ltb max_k req.k
        then failed (bad_request "k must be 1..=1024")
        else if (elim req.ef [ none ↦ false | some ef ↦ ltb max_ef ef ])
        then failed (bad_request "ef must be <= 100000")
        else elim (get state name) [
          | none ↦ failed not_found
          | some c ↦ reply_of (
              Any.search_opts c.index req.query req.k req.ef req.filter
              >>= to_hits c.index req.with_payload)
        ]

    unfoldable pub collection_stats : AppState Disk → String → Reply CollectionStats
    collection_stats state name = elim (get state name) [
      | none ↦ failed not_found
      | some c ↦ done (stats c)
    ]

    -- A new collection is filed once its first snapshot is saved.
    unfoldable pub file_new :
        AppState Disk
        → String
        → (Disk × Collection) × Reply Bool
        → AppState Disk × Reply CollectionStats
    file_new state name ((disk, c), done _) =
        (update (record state { disk = disk }) name c, done (stats c))
    file_new state name ((disk, c), failed e) = (record state { disk = disk }, failed e)
    file_new state name ((disk, c), panicked) = (record state { disk = disk }, panicked)
    file_new state name ((disk, c), stuck) = (record state { disk = disk }, stuck)

    module _ (files : Files Disk) where
      -- The registry part of `create_collection`, once the index is made.
      unfoldable pub register :
          AppState Disk → String → AnyIndex → AppState Disk × Reply CollectionStats
      register state name index =
          if Dict.contains_key state.collections name
          then (state, failed conflict)
          else file_new state name (flush files state.disk (new name index) true)

      unfoldable pub register_made :
          AppState Disk → String → Reply AnyIndex → AppState Disk × Reply CollectionStats
      register_made state name (done index) = register state name index
      register_made state name (failed e) = (state, failed e)
      register_made state name panicked = (state, panicked)
      register_made state name stuck = (state, stuck)

      unfoldable pub create_collection :
          AppState Disk → String → CreateCollection → AppState Disk × Reply CollectionStats
      create_collection state name req =
          if state.is_read_only
          then (state, failed read_only)
          else if not (validate_name name)
          then (state, failed (bad_request "collection name must be 1-64 chars of [a-zA-Z0-9_-]"))
          else if req.dim == 0 || ltb max_dim req.dim
          then (state, failed (bad_request "dim must be 1..=65536"))
          else register_made state name (new_index req)

      unfoldable pub drop_collection : AppState Disk → String → AppState Disk × Reply (Unit {0})
      drop_collection state name =
          if state.is_read_only then (state, failed read_only) else elim (get state name) [
            | none ↦ (state, failed not_found)
            | some c ↦
                let state' : AppState Disk = record state {
                  collections = Dict.remove state.collections name;
                } in
                if files.exists state'.disk (snapshot name)
                then (let (disk, removed) = files.remove_file state'.disk (snapshot name) in
                    (record state' { disk = disk }, if removed then done tt else failed internal))
                else (state', done tt)
          ]

      unfoldable pub snapshot_collection : AppState Disk → String → AppState Disk × Reply Bool
      snapshot_collection state name =
          if state.is_read_only then (state, failed read_only) else elim (get state name) [
            | none ↦ (state, failed not_found)
            | some c ↦
                let ((disk, c'), reply) = flush files state.disk c true in
                (update (record state { disk = disk }) name c', reply)
          ]
