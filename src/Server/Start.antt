-- ===== src/Server/Start.antt =====
-- `AppState::load` of crates/vex-server/src/state.rs, and the life of the server in
-- crates/vex-server/src/main.rs: the load, the ticks of the background task, the flush at shutdown.
use vexdb.Prelude.{
  ℕ, Bool, true, false, not, Option, none, some, List, [], ◌∷◌, String, if◌then◌else◌,
}
use vexdb.Platform.{Platform}
use vexdb.Collections.Dict
use vexdb.Collections.Dict.{string_eq}
use vexdb.Persist.Format
use vexdb.Persist.Format.{Result, SnapshotError, io}
use vexdb.Persist.Any.{AnyIndex, read_from}
use vexdb.Server.{
  Files, FileName, snapshot, temporary, other, Collection, AppState, new, validate_name, flush_all,
}

-- Why the server does not start.
pub data StartError : Type 0 where
  no_directory : StartError
  no_listing : StartError
  bad_entry : StartError
  bad_snapshot : String → SnapshotError → StartError

pub data Started {ℓ} (A : Type ℓ) : Type ℓ where
  started : A → Started A
  refused : StartError → Started A

module _ ⦃p : Platform⦄ {Disk : Type 0} (files : Files Disk) where
  -- `AnyIndex::load`
  unfoldable pub load_index : Disk → String → Result AnyIndex
  load_index disk name = elim (files.read disk (snapshot name)) [
    | none ↦ Format.err io
    | some bytes ↦ read_from bytes
  ]

  -- The loop over the entries of the data directory: what is no snapshot, or has no valid name, is left
  -- where it is.
  unfoldable pub load_each :
      Disk
      → List (Option FileName)
      → List (String × Collection)
      → Started (List (String × Collection))
  load_each disk [] collections = started collections
  load_each disk (none ∷ entries) collections = refused bad_entry
  load_each disk (some (temporary name) ∷ entries) collections = load_each disk entries collections
  load_each disk (some (other name) ∷ entries) collections = load_each disk entries collections
  load_each disk (some (snapshot name) ∷ entries) collections = elim (validate_name name) [
    | false ↦ load_each disk entries collections
    | true ↦ elim (load_index disk name) [
      | Format.err e ↦ refused (bad_snapshot name e)
      | Format.ok index ↦ load_each disk entries (Dict.insert collections name (new name index))
    ]
  ]

  -- `AppState::load`
  unfoldable pub load : Disk → Bool → Started (AppState Disk)
  load disk is_read_only =
      let (disk', made) = files.create_dir_all disk in
      if not made then refused no_directory else elim (files.read_dir disk') [
        | none ↦ refused no_listing
        | some entries ↦ elim (load_each disk' entries []) [
          | refused e ↦ refused e
          | started collections ↦
              started
                (record { collections = collections; disk = disk'; is_read_only = is_read_only })
        ]
      ]

  -- A tick of the background task, which does not run in read-only mode.
  unfoldable pub tick : AppState Disk → AppState Disk
  tick state = if state.is_read_only then state else (flush_all files state false).0

  -- The final flush.
  unfoldable pub shutdown : AppState Disk → AppState Disk × ℕ
  shutdown state = flush_all files state false
