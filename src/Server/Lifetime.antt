-- ===== src/Server/Lifetime.antt =====
-- The life of a server, from the load of the data directory over requests and ticks of the background
-- task (crates/vex-server/src/main.rs, lib.rs), and what its disk has of its collections.
use vexdb.Prelude.{
  ◌≢◌, ◌⊎◌, arith, ℕ, Bool, false, Option, none, some, List, [], ◌∷◌, ◌≡◌, refl, String, Bool-cases,
  Option-cases, inl, inr,
}
use vexdb.Platform.{Platform}
use vexdb.Collections.Dict
use vexdb.Collections.Dict.{string_eq}
use vexdb.Collections.Unique.{IsUnique}
use vexdb.Persist.Format
use vexdb.Persist.Format.{Result, Result-cases}
use vexdb.Persist.Any.{AnyIndex, read_from}
use vexdb.Persist.Sound.{read_from-IsSound}
use vexdb.Server.{
  Reply, done, failed, panicked, stuck, Files, FileName, snapshot, temporary, other, Collection,
  AppState, new, validate_name,
}
use vexdb.Server.Disk.{FileLaws}
use vexdb.Server.Durable.{IsServed, Answers, update-IsServed, upsert_points-IsServed}
use vexdb.Server.Deletion.{delete_point-IsServed}
use vexdb.Server.Kept.{
  create_collection-IsServed, drop_collection-IsServed, snapshot_collection-IsServed,
  flush_all-IsServed,
}
use vexdb.Server.Routes.{upsert_points}
use vexdb.Server.Start.{StartError, Started, started, refused, load_index, load_each, load, tick}
use vexdb.Server.App.{
  Request, Body, response, respond, app, fill_create, upserted, get_page, get_health,
  get_collections, post_collection, get_collection, delete_collection, post_points, delete_id,
  post_search, post_snapshot,
}

pub not_started : {A : Type 0} {e : StartError} {a : A} → refused e ≢ started a
not_started h = cc

pub Started-cases :
    {A : Type 0} (r : Started A)
    → ((e : StartError) × (r ≡ refused e)) ⊎ ((a : A) × (r ≡ started a))
Started-cases (refused e) = inl (e, refl)
Started-cases (started a) = inr (a, refl)

module _ ⦃p : Platform⦄ {Disk : Type 0} (files : Files Disk) where
  open files use {read}

  -- A request that was answered, or a tick.
  pub data Serves (state : AppState Disk) : AppState Disk → Type 0 where
    answers :
        (request : Request) (code : ℕ) (body : Body)
        → (app files state request).1 ≡ response code body
        → Serves state (app files state request).0
    ticks : Serves state (tick files state)

  pub data Served (start : AppState Disk) : AppState Disk → Type 0 where
    at_start : Served start start
    then : {mid end : AppState Disk} → Served start mid → Serves mid end → Served start end

  pub load_index-read :
      (disk : Disk) (name : String) (index : AnyIndex)
      → load_index files disk name ≡ Format.ok index
      → (bytes : List ℕ) × (read disk (snapshot name) ≡ some bytes)
        × (read_from bytes ≡ Format.ok index)
  unfolding load_index
  load_index-read disk name index h = elim (Option-cases (read disk (snapshot name))) [
    | inl absent ↦
        let e : Format.err Format.io ≡ Format.ok index = rw (absent, load_index) at h in cc
    | inr (bytes, at) ↦ (bytes, at, rw (at, load_index) at h)
  ]

  load_each-IsServed :
      (disk : Disk) (is_read_only : Bool) (entries : List (Option FileName))
      (cs cs' : List (String × Collection))
      → IsServed files (record { collections = cs; disk = disk; is_read_only = is_read_only })
      → load_each files disk entries cs ≡ started cs'
      → IsServed files (record { collections = cs'; disk = disk; is_read_only = is_read_only })
  unfolding load_each
  load_each-IsServed disk ro [] cs cs' served h =
      let e : cs ≡ cs' = ground (arith, h) in rw e at served
  load_each-IsServed disk ro (none ∷ entries) cs cs' served h = cc
  load_each-IsServed disk ro (some (temporary name) ∷ entries) cs cs' served h =
      load_each-IsServed disk ro entries cs cs' served h
  load_each-IsServed disk ro (some (other name) ∷ entries) cs cs' served h =
      load_each-IsServed disk ro entries cs cs' served h
  load_each-IsServed disk ro (some (snapshot name) ∷ entries) cs cs' served h =
      elim (Bool-cases (validate_name name)) [
        | inr bad ↦ load_each-IsServed disk ro entries cs cs' served (rw (bad, load_each) at h)
        | inl valid ↦ elim (Result-cases (load_index files disk name)) [
          | inl (e, failed_) ↦ absurd (not_started (rw (valid, failed_, load_each) at h))
          | inr (index, made) ↦
              let (bytes, file, back) = load_index-read disk name index made in
              load_each-IsServed disk ro entries (Dict.insert cs name (new name index)) cs'
                (update-IsServed files (record { collections = cs; disk = disk; is_read_only = ro })
                  served disk name (new name index) valid refl (read_from-IsSound bytes index back)
                  (λ key ne. refl) (λ clean. (bytes, file, inr back)))
                (rw (valid, made, load_each) at h)
        ]
      ]

  empty-IsServed :
      (disk : Disk) (is_read_only : Bool)
      → IsServed files (record { collections = []; disk = disk; is_read_only = is_read_only })
  unfolding Dict.get IsUnique
  empty-IsServed disk ro = record {
    named = λ key c h. cc;
    valid = λ key c h. cc;
    unique = tt;
    sound = λ key c h. cc;
    kept = λ key c h clean. cc;
  }

  -- What a load that succeeds went through.
  pub load-started :
      (disk : Disk) (is_read_only : Bool) (state : AppState Disk)
      → load files disk is_read_only ≡ started state
      → (entries : List (Option FileName)) × (files.read_dir (files.create_dir_all disk).0
          ≡ some entries)
        × (cs : List (String × Collection)) × (load_each files
              (files.create_dir_all disk).0
              entries
              []
            ≡ started cs)
        × (record {
          collections = cs;
          disk = (files.create_dir_all disk).0;
          is_read_only = is_read_only;
        }
            ≡ state)
  unfolding load
  load-started disk ro state h = elim (Bool-cases (files.create_dir_all disk).1) [
    | inr h₁ ↦ absurd (not_started (rw (h₁, load) at h))
    | inl made ↦ elim (Option-cases (files.read_dir (files.create_dir_all disk).0)) [
      | inl h₁ ↦ absurd (not_started (rw (made, h₁, load) at h))
      | inr (entries, listed) ↦
          let d = (files.create_dir_all disk).0 in
          elim (Started-cases (load_each files d entries [])) [
            | inl (e, h₁) ↦ absurd (not_started (rw (made, listed, h₁, load) at h))
            | inr (cs, h₁) ↦
                (entries, listed, cs, h₁, ground (arith, rw (made, listed, h₁, load) at h))
          ]
    ]
  ]

  load-IsServed :
      (disk : Disk) (is_read_only : Bool) (state : AppState Disk)
      → load files disk is_read_only ≡ started state
      → IsServed files state
  load-IsServed disk ro state h =
      let d = (files.create_dir_all disk).0 in
      let (entries, listed, cs, run, e) = load-started disk ro state h in
      rw e at (load_each-IsServed d ro entries [] cs (empty-IsServed d ro) run)

  -- A reply that was answered with a response came through.
  respond-Answers :
      {A : Type 0} (code : ℕ) (make : A → Body) (reply : Reply A) (code' : ℕ) (body : Body)
      → respond code make reply ≡ response code' body
      → Answers reply
  respond-Answers code make (done a) code' body h = tt
  respond-Answers code make (failed e) code' body h = tt
  respond-Answers code make panicked code' body h = cc
  respond-Answers code make stuck code' body h = cc

  module _ (laws : FileLaws files) where
    tick-IsServed :
        (state : AppState Disk) → IsServed files state → IsServed files (tick files state)
    unfolding tick
    tick-IsServed state served = elim (Bool-cases state.is_read_only) [
      | inl h ↦ simp (h, tick) served
      | inr h ↦ simp (h, tick) (flush_all-IsServed files laws state served false)
    ]

    app-IsServed :
        (state : AppState Disk)
        → IsServed files state
        → (request : Request) (code : ℕ) (body : Body)
        → (app files state request).1 ≡ response code body
        → IsServed files (app files state request).0
    unfolding app
    app-IsServed state served get_page code body h = served
    app-IsServed state served get_health code body h = served
    app-IsServed state served get_collections code body h = served
    app-IsServed state served (post_collection name b) code body h =
        create_collection-IsServed files laws state served name (fill_create b)
    app-IsServed state served (get_collection name) code body h = served
    app-IsServed state served (delete_collection name) code body h =
        drop_collection-IsServed files laws state served name
    app-IsServed state served (post_points name points) code body h =
        upsert_points-IsServed files state served name points
          (respond-Answers 200 upserted (upsert_points state name points).1 code body h)
    app-IsServed state served (delete_id name id) code body h =
        delete_point-IsServed files state served name id
    app-IsServed state served (post_search name b) code body h = served
    app-IsServed state served (post_snapshot name) code body h =
        snapshot_collection-IsServed files laws state served name

    Serves-IsServed :
        {state state' : AppState Disk}
        → IsServed files state
        → Serves state state'
        → IsServed files state'
    Serves-IsServed {state} served (answers request code body h) =
        app-IsServed state served request code body h
    Serves-IsServed {state} served ticks = tick-IsServed state served

    Served-IsServed :
        {start end : AppState Disk} → IsServed files start → Served start end → IsServed files end
    Served-IsServed served at_start = served
    Served-IsServed served (then run step) = Serves-IsServed (Served-IsServed served run) step

    -- Where std::fs behaves as documented, a server that has loaded its data directory, answered
    -- requests and run its background task, in any order: each collection is filed once, under its own,
    -- valid name, a flat index is well formed, and the snapshot of a collection that is not marked dirty
    -- has the bytes that its index writes, or bytes from which that very index was read.
    pub load-Served-IsServed :
        (disk : Disk) (is_read_only : Bool) {start end : AppState Disk}
        → load files disk is_read_only ≡ started start
        → Served start end
        → IsServed files end
    load-Served-IsServed disk ro {start} loaded run =
        Served-IsServed (load-IsServed disk ro start loaded) run
