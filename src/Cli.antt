-- ===== src/Cli.antt =====
-- crates/vex-cli/src/main.rs: loading an index from lines of JSON, and the commands. Paths are texts; the
-- clock, and what is printed about time, are left out.
pub mod Bench
pub mod Run
pub mod Load
use vexdb.Prelude.{
  ℕ, zero, suc, Bool, true, false, Option, none, some, List, [], ◌∷◌, String, if◌then◌else◌,
}
use vexdb.Platform.{Platform}
use vexdb.Error.{VexError, VectorId, Outcome}
use vexdb.Vector
use vexdb.Vector.{Vector}
use vexdb.Collections.Dict
use vexdb.Collections.Dict.{string_eq}
use vexdb.Distance.Metric.{DistanceMetric}
use vexdb.Flat
use vexdb.Flat.{FlatIndex}
use vexdb.Hnsw
use vexdb.Hnsw.{default_config}
use vexdb.Persist.Format.{SnapshotError}
use vexdb.Persist.Any
use vexdb.Persist.Any.{AnyIndex, flat, hnsw}
use vexdb.Attempt.{Attempt, ok, err, ◌>>=◌, lift, or_fail}

-- The errors, with the line that their context names.
pub data Failure : Type 0 where
  opening : Failure
  reading : Failure
  parsing : ℕ → Failure
  validating : ℕ → VexError → Failure
  adding : ℕ → VexError → Failure
  unknown_metric : Failure
  unknown_index : Failure
  bad_query : Failure
  bad_ef_search : Failure
  saving : SnapshotError → Failure
  loading : SnapshotError → Failure
  no_input : Failure
  engine : VexError → Failure

pub record Record ⦃p : Platform⦄ : Type 0 where
  pub id : ℕ
  pub vector : List p.F32
  pub payload : Option p.Value

-- What the program takes from std and serde_json: the lines of a file (`none` for one that cannot be
-- read), its bytes, `line.trim().is_empty()`, the trimmed parts of a text between commas, and the
-- parsers of records and numbers; and `n as f32`.
pub record World ⦃p : Platform⦄ (Disk : Type 0) : Type 0 where
  pub open_lines : Disk → String → Option (List (Option String))
  pub read_file : Disk → String → Option (List ℕ)
  pub is_blank : String → Bool
  pub fields : String → List String
  pub record_of : String → Option Record
  pub f32_of : String → Option p.F32
  pub usize_of : String → Option ℕ
  pub of_int_f : ℕ → p.F32

-- The operations of the `Index` trait that loading uses.
pub record Indexing ⦃p : Platform⦄ (I : Type 0) : Type 0 where
  pub dim : I → ℕ
  pub add_with_payload : I → VectorId → Vector → Option p.Value → Outcome I

module _ ⦃p : Platform⦄ where
  open p use {F32}

  abbrev pub flat_indexing : Indexing FlatIndex
  flat_indexing = record { dim = λ i. i.dim; add_with_payload = Flat.add_with_payload }

  abbrev pub any_indexing : Indexing AnyIndex
  any_indexing = record { dim = Any.dim; add_with_payload = Any.add_with_payload }

  -- `vex build` and `vex query` take any m, ef_construction and dimension.
  unfoldable pub new_index : String → ℕ → DistanceMetric → ℕ → ℕ → Attempt Failure AnyIndex
  new_index kind dim metric m ef_construction =
      if Dict.string_eq.beq kind "flat"
      then ok (flat (Flat.new dim metric))
      else if Dict.string_eq.beq kind "hnsw"
      then ok (
          hnsw (
            Hnsw.new dim metric
              (record default_config { m = m; ef_construction = ef_construction })))
      else err unknown_index

  module _ {Disk : Type 0} (world : World Disk) where
    -- The texts of a list, all parsed or the error.
    unfoldable pub parse_all :
        {A : Type 0} → (String → Option A) → Failure → List String → Attempt Failure (List A)
    parse_all parse failure [] = ok []
    parse_all parse failure (t ∷ ts) = do
      a ← or_fail failure (parse t)
      rest ← parse_all parse failure ts
      ok (a ∷ rest)

    unfoldable pub parse_query : String → Attempt Failure (List F32)
    parse_query s = parse_all world.f32_of bad_query (world.fields s)

    module _ {I : Type 0} (ops : Indexing I) where
      -- The record of line `n`, counted from one.
      unfoldable pub load_record : ℕ → ℕ → Record → I → Attempt Failure I
      load_record dim n rec index = do
        vector ← lift (validating n) (Vector.new rec.vector dim)
        lift (adding n) (ops.add_with_payload index rec.id vector rec.payload)

      -- The loop over the lines, of which `lineno` are behind it.
      unfoldable pub load_lines : ℕ → ℕ → List (Option String) → I → Attempt Failure I
      load_lines dim lineno [] index = ok index
      load_lines dim lineno (none ∷ lines) index = err reading
      load_lines dim lineno (some line ∷ lines) index = elim (world.is_blank line) [
        | true ↦ load_lines dim (suc lineno) lines index
        | false ↦ do
          rec ← or_fail (parsing (suc lineno)) (world.record_of line)
          index' ← load_record dim (suc lineno) rec index
          load_lines dim (suc lineno) lines index'
      ]

      unfoldable pub load_into : Disk → String → I → Attempt Failure I
      load_into disk path index = do
        lines ← or_fail opening (world.open_lines disk path)
        load_lines (ops.dim index) 0 lines index

    unfoldable pub build_index : Disk → String → ℕ → DistanceMetric → Attempt Failure FlatIndex
    build_index disk path dim metric = load_into flat_indexing disk path (Flat.new dim metric)
