-- ===== src/Server/Registry.antt =====
-- The registry of the server over a run of requests: the names of its collections stay names that are
-- safe to use as file names.
use vexdb.Prelude.{
  ℕ, Bool, true, not, ◌&&◌, ◌||◌, some, List, ◌≡◌, refl, ◌∙◌, arith, String, length, ltb, ◌==◌,
  Bool-cases, Option-cases, inl, inr,
}
use vexdb.Platform.{Platform}
use vexdb.Error
use vexdb.Error.{VectorId, Outcome}
use vexdb.Collections.Dict
use vexdb.Collections.Dict.{string_eq}
use vexdb.Persist.Format
use vexdb.Persist.Format.{Result}
use vexdb.Persist.Any
use vexdb.Persist.Any.{AnyIndex}
use vexdb.Server.{
  Reply, done, failed, panicked, stuck, Files, Collection, AppState, new, validate_name, flush,
  finish_flush, save, get, snapshot,
}
use vexdb.Server.Routes.{
  CreateCollection, PointInput, update, apply_points, all_sized, upsert_points, write_back,
  delete_point, finish_delete, file_new, register_made, register, create_collection,
  drop_collection, snapshot_collection, new_index, max_batch, max_dim,
}

module _ ⦃p : Platform⦄ {Disk : Type 0} where
  -- Every collection has a valid name, and is filed under it.
  unfoldable pub IsNamed : AppState Disk → Type 0
  IsNamed state =
      (key : String) (c : Collection)
      → get state key ≡ some c
      → (validate_name key ≡ true) × (c.name ≡ key)

  -- A collection that keeps its name, or is new under a valid one, may be written back.
  update-IsNamed :
      (state : AppState Disk) (name : String) (c : Collection)
      → IsNamed state
      → validate_name name ≡ true
      → c.name ≡ name
      → IsNamed (update state name c)
  unfolding IsNamed get
  update-IsNamed state name c named valid same key d h =
      elim (Bool-cases (string_eq.beq name key)) [
        | inl e ↦
            let alike : name ≡ key = (string_eq.beq_iff name key).0 e in
            ground (arith, e, alike, valid, same, Dict.get-insert state.collections name c key)
        | inr ne ↦ named key d (ground (arith, ne, Dict.get-insert state.collections name c key))
      ]

  -- A collection that is there may be written back when it keeps its name.
  rewrite-IsNamed :
      (state : AppState Disk) (name : String) (c c' : Collection)
      → IsNamed state
      → get state name ≡ some c
      → c'.name ≡ c.name
      → IsNamed (update state name c')
  unfolding IsNamed
  rewrite-IsNamed state name c c' named found same =
      let (valid, filed) = named name c found in
      update-IsNamed state name c' named valid (same ∙ filed)

  write_back-IsNamed :
      (state : AppState Disk) (name : String) (c : Collection) (count : ℕ)
      (end : AnyIndex × Reply (Unit {0}))
      → IsNamed state
      → get state name ≡ some c
      → IsNamed (write_back state name c count end).0
  unfolding write_back
  write_back-IsNamed state name c count (index, done _) named found =
      rewrite-IsNamed state name c _ named found refl
  write_back-IsNamed state name c count (index, failed e) named found =
      rewrite-IsNamed state name c _ named found refl
  write_back-IsNamed state name c count (index, panicked) named found =
      rewrite-IsNamed state name c _ named found refl
  write_back-IsNamed state name c count (index, stuck) named found =
      rewrite-IsNamed state name c _ named found refl

  pub upsert_points-IsNamed :
      (state : AppState Disk) (name : String) (points : List PointInput)
      → IsNamed state
      → IsNamed (upsert_points state name points).0
  unfolding upsert_points
  upsert_points-IsNamed state name points named = elim (Bool-cases state.is_read_only) [
    | inl h ↦ simp (h, upsert_points) named
    | inr writable ↦ elim (Bool-cases (length points == 0)) [
      | inl h ↦ simp (writable, h, upsert_points) named
      | inr filled ↦ elim (Bool-cases (ltb max_batch (length points))) [
        | inl h ↦ simp (writable, filled, h, upsert_points) named
        | inr fits ↦ elim (Option-cases (get state name)) [
          | inl h ↦ simp (writable, filled, fits, h, upsert_points) named
          | inr (c, found) ↦ elim (Bool-cases (all_sized (Any.dim c.index) points)) [
            | inr h ↦ simp (writable, filled, fits, found, h, upsert_points) named
            | inl h ↦
                simp (writable, filled, fits, found, h, upsert_points)
                  (write_back-IsNamed state name c (length points)
                    (apply_points c.index (Any.dim c.index) points) named found)
          ]
        ]
      ]
    ]
  ]

  finish_delete-IsNamed :
      (state : AppState Disk) (name : String) (c : Collection) (end : Outcome (AnyIndex × Bool))
      → IsNamed state
      → get state name ≡ some c
      → IsNamed (finish_delete state name c end).0
  unfolding finish_delete
  finish_delete-IsNamed state name c (Error.ok (index, removed)) named found =
      rewrite-IsNamed state name c _ named found refl
  finish_delete-IsNamed state name c (Error.err e) named found = named
  finish_delete-IsNamed state name c Error.panic named found = named
  finish_delete-IsNamed state name c Error.stuck named found = named

  pub delete_point-IsNamed :
      (state : AppState Disk) (name : String) (id : VectorId)
      → IsNamed state
      → IsNamed (delete_point state name id).0
  unfolding delete_point
  delete_point-IsNamed state name id named = elim (Bool-cases state.is_read_only) [
    | inl h ↦ simp (h, delete_point) named
    | inr writable ↦ elim (Option-cases (get state name)) [
      | inl h ↦ simp (writable, h, delete_point) named
      | inr (c, found) ↦
          simp (writable, found, delete_point)
            (finish_delete-IsNamed state name c (Any.remove c.index id) named found)
    ]
  ]

  -- The names do not depend on the disk.
  disk-IsNamed :
      (state : AppState Disk) (disk : Disk) → IsNamed state → IsNamed (record state { disk = disk })
  unfolding IsNamed get
  disk-IsNamed state disk named = named

  pub same-IsNamed :
      (state state' : AppState Disk)
      → state'.collections ≡ state.collections
      → IsNamed state
      → IsNamed state'
  unfolding IsNamed get
  same-IsNamed state state' same named key c h = named key c (rw same at h)

  remove-IsNamed :
      (state : AppState Disk) (name : String)
      → IsNamed state
      → IsNamed (record state { collections = Dict.remove state.collections name })
  unfolding IsNamed get
  remove-IsNamed state name named key c h =
      named key c (ground (arith, h, Dict.get-remove state.collections name key))

  name-finish_flush :
      (c : Collection) (saved : Disk × Result (Unit {0})) → (finish_flush c saved).0.1.name ≡ c.name
  unfolding finish_flush
  name-finish_flush c (disk, Format.ok _) = refl
  name-finish_flush c (disk, Format.err e) = refl

  module _ (files : Files Disk) where
    pub name-flush :
        (disk : Disk) (c : Collection) (force : Bool) → (flush files disk c force).0.1.name ≡ c.name
    unfolding flush
    name-flush disk c force = elim (Bool-cases (not force && not c.dirty)) [
      | inl h ↦ rw (h, flush)
      | inr h ↦ rw (h, flush) (name-finish_flush c (save files disk c.name c.index))
    ]

    file_new-IsNamed :
        (state : AppState Disk) (name : String) (flushed : (Disk × Collection) × Reply Bool)
        → IsNamed state
        → validate_name name ≡ true
        → flushed.0.1.name ≡ name
        → IsNamed (file_new state name flushed).0
    unfolding file_new
    file_new-IsNamed state name ((disk, c), done _) named valid same =
        update-IsNamed (record state { disk = disk }) name c (disk-IsNamed state disk named) valid
          same
    file_new-IsNamed state name ((disk, c), failed e) named valid same =
        disk-IsNamed state disk named
    file_new-IsNamed state name ((disk, c), panicked) named valid same =
        disk-IsNamed state disk named
    file_new-IsNamed state name ((disk, c), stuck) named valid same = disk-IsNamed state disk named

    register_made-IsNamed :
        (state : AppState Disk) (name : String) (made : Reply AnyIndex)
        → IsNamed state
        → validate_name name ≡ true
        → IsNamed (register_made files state name made).0
    unfolding register_made register
    register_made-IsNamed state name (done index) named valid =
        elim (Bool-cases (Dict.contains_key state.collections name)) [
          | inl h ↦ simp (h, register) named
          | inr h ↦
              simp (h, register)
                (file_new-IsNamed state name (flush files state.disk (new name index) true) named
                  valid (name-flush state.disk (new name index) true))
        ]
    register_made-IsNamed state name (failed e) named valid = named
    register_made-IsNamed state name panicked named valid = named
    register_made-IsNamed state name stuck named valid = named

    pub create_collection-IsNamed :
        (state : AppState Disk) (name : String) (req : CreateCollection)
        → IsNamed state
        → IsNamed (create_collection files state name req).0
    unfolding create_collection
    create_collection-IsNamed state name req named = elim (Bool-cases state.is_read_only) [
      | inl h ↦ simp (h, create_collection) named
      | inr writable ↦ elim (Bool-cases (validate_name name)) [
        | inr h ↦ simp (writable, h, create_collection) named
        | inl valid ↦ elim (Bool-cases (req.dim == 0 || ltb max_dim req.dim)) [
          | inl h ↦ simp (writable, valid, h, create_collection) named
          | inr h ↦
              simp (writable, valid, h, create_collection)
                (register_made-IsNamed state name (new_index req) named valid)
        ]
      ]
    ]

    pub snapshot_collection-IsNamed :
        (state : AppState Disk) (name : String)
        → IsNamed state
        → IsNamed (snapshot_collection files state name).0
    unfolding snapshot_collection
    snapshot_collection-IsNamed state name named = elim (Bool-cases state.is_read_only) [
      | inl h ↦ simp (h, snapshot_collection) named
      | inr writable ↦ elim (Option-cases (get state name)) [
        | inl h ↦ simp (writable, h, snapshot_collection) named
        | inr (c, found) ↦
            simp (writable, found, snapshot_collection)
              (same-IsNamed (update state name (flush files state.disk c true).0.1) _ refl
                (rewrite-IsNamed state name c _ named found (name-flush state.disk c true)))
      ]
    ]

    pub drop_collection-IsNamed :
        (state : AppState Disk) (name : String)
        → IsNamed state
        → IsNamed (drop_collection files state name).0
    unfolding drop_collection
    drop_collection-IsNamed state name named = elim (Bool-cases state.is_read_only) [
      | inl h ↦ simp (h, drop_collection) named
      | inr writable ↦ elim (Option-cases (get state name)) [
        | inl h ↦ simp (writable, h, drop_collection) named
        | inr (c, found) ↦
            let rest : AppState Disk = record state {
              collections = Dict.remove state.collections name;
            } in
            elim (Bool-cases (files.exists state.disk (snapshot name))) [
              | inl h ↦
                  simp (writable, found, h, drop_collection)
                    (same-IsNamed rest _ refl (remove-IsNamed state name named))
              | inr h ↦
                  simp (writable, found, h, drop_collection)
                    (same-IsNamed rest _ refl (remove-IsNamed state name named))
            ]
      ]
    ]
