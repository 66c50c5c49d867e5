-- ===== src/Server.antt =====
-- crates/vex-server/src/state.rs and error.rs: the registry of named collections, their snapshots on
-- disk, and the errors of the server. One request runs at a time, so a lock is always free; a call that
-- panics ends the run of the model, where the code would go on with a poisoned lock.
pub mod Routes
pub mod Upsert
pub mod Registry
pub mod Run
pub mod Start
pub mod App
pub mod Disk
pub mod Durable
pub mod Restart
pub mod Reopen
pub mod ReadOnly
pub mod Lifetime
pub mod Kept
pub mod Deletion
pub mod Applied
pub mod Flush
use vexdb.Prelude.{
  ℕ, ◌+◌, Bool, true, false, not, ◌&&◌, ◌||◌, Option, none, some, List, [], ◌∷◌, String, length,
  leb, ◌==◌, if◌then◌else◌,
}
use vexdb.Platform.{Platform}
use vexdb.Error
use vexdb.Error.{VexError, Outcome, dimension_mismatch, duplicate_id, invalid_k}
use vexdb.Collections.Dict
use vexdb.Collections.Dict.{string_eq}
use vexdb.Distance.Tags.{codes}
use vexdb.Persist.Format
use vexdb.Persist.Format.{Result, SnapshotError, io}
use vexdb.Persist.Any.{AnyIndex, write_to}

-- The messages are without the values that they print.
pub data ApiError : Type 0 where
  bad_request : String → ApiError
  not_found : ApiError
  conflict : ApiError
  read_only : ApiError
  internal : ApiError

-- What a handler comes to.
pub data Reply (A : Type 0) : Type 0 where
  done : A → Reply A
  failed : ApiError → Reply A
  panicked : Reply A
  stuck : Reply A

-- `ApiError::from(VexError)`
unfoldable pub from_vex : VexError → ApiError
from_vex (dimension_mismatch expected actual) = bad_request "dimension mismatch"
from_vex invalid_k = bad_request "invalid k"
from_vex (duplicate_id id) = conflict

-- `<name>.vex` in the data directory, the file that a save writes first, and a file of any other name.
pub data FileName : Type 0 where
  snapshot : String → FileName
  temporary : String → FileName
  other : String → FileName

-- The calls of std::fs. Each that writes gives the disk after it, and whether it succeeded; `read` is an
-- open and a read to the end, and `read_dir` may fail as a whole or at an entry.
pub record Files (Disk : Type 0) : Type 0 where
  pub create : Disk → FileName → Disk × Bool
  pub write : Disk → FileName → List ℕ → Disk × Bool
  pub rename : Disk → FileName → FileName → Disk × Bool
  pub remove_file : Disk → FileName → Disk × Bool
  pub exists : Disk → FileName → Bool
  pub read : Disk → FileName → Option (List ℕ)
  pub create_dir_all : Disk → Disk × Bool
  pub read_dir : Disk → Option (List (Option FileName))

pub record Collection ⦃p : Platform⦄ : Type 0 where
  pub name : String
  pub index : AnyIndex
  pub dirty : Bool

pub record AppState ⦃p : Platform⦄ (Disk : Type 0) : Type 0 where
  pub collections : List (String × Collection)
  pub disk : Disk
  pub is_read_only : Bool

abbrev is_name_char : ℕ → Bool
is_name_char c =
    (leb b'a' c && leb c b'z')
    || (leb b'A' c && leb c b'Z')
    || (leb b'0' c && leb c b'9')
    || c == b'-'
    || c == b'_'

abbrev all_name_chars : List ℕ → Bool
all_name_chars [] = true
all_name_chars (c ∷ cs) = is_name_char c && all_name_chars cs

-- On a text of such characters the length in bytes is the number of code points.
unfoldable pub validate_name : String → Bool
validate_name name =
    let cs = codes name in not (length cs == 0) && leb (length cs) 64 && all_name_chars cs

module _ ⦃p : Platform⦄ where
  abbrev pub new : String → AnyIndex → Collection
  new name index = record { name = name; index = index; dirty = false }

  module _ {Disk : Type 0} where
    -- The dirty flag goes once the save succeeded.
    unfoldable pub finish_flush :
        Collection → Disk × Result (Unit {0}) → (Disk × Collection) × Reply Bool
    finish_flush c (disk, Format.ok _) = ((disk, record c { dirty = false }), done true)
    finish_flush c (disk, Format.err e) = ((disk, c), failed internal)

  module _ {Disk : Type 0} (files : Files Disk) where
    -- `AnyIndex::save`. What a failed save leaves in the temporary file is never read.
    unfoldable pub save : Disk → String → AnyIndex → Disk × Result (Unit {0})
    save disk name index =
        let (disk₁, created) = files.create disk (temporary name) in
        if not created then (disk₁, Format.err io) else elim (write_to index) [
          | Format.err e ↦ (disk₁, Format.err e)
          | Format.ok bytes ↦
              let (disk₂, written) = files.write disk₁ (temporary name) bytes in
              if not written
              then (disk₂, Format.err io)
              else (let (disk₃, renamed) = files.rename disk₂ (temporary name) (snapshot name) in
                  (disk₃, if renamed then Format.ok tt else Format.err io))
        ]

    -- `Collection::flush`
    unfoldable pub flush : Disk → Collection → Bool → (Disk × Collection) × Reply Bool
    flush disk c force =
        if not force && not c.dirty
        then ((disk, c), done false)
        else finish_flush c (save disk c.name c.index)

    -- The loop of `AppState::flush_all`: the collections in some order.
    unfoldable pub flush_each :
        Disk → List (String × Collection) → Bool → (Disk × List (String × Collection)) × ℕ
    flush_each disk [] force = ((disk, []), 0)
    flush_each disk ((key, c) ∷ cs) force =
        let ((disk₁, c'), reply) = flush disk c force in
        let ((disk₂, cs'), flushed) = flush_each disk₁ cs force in
        (
          (disk₂, (key, c') ∷ cs'),
          (elim reply [
            | done true ↦ flushed + 1
            | done false ↦ flushed
            | failed e ↦ flushed
            | panicked ↦ flushed
            | stuck ↦ flushed
          ]),
        )

    unfoldable pub flush_all : AppState Disk → Bool → AppState Disk × ℕ
    flush_all state force =
        let ((disk', collections'), flushed) = flush_each state.disk state.collections force in
        (record state { disk = disk'; collections = collections' }, flushed)

  -- `AppState::get`
  unfoldable pub get : {Disk : Type 0} → AppState Disk → String → Option Collection
  get state name = Dict.get state.collections name
