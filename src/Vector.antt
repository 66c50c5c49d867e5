-- ===== src/Vector.antt =====
-- crates/vex-core/src/vector.rs: a vector of f32, whose dimension is its length.
use vexdb.Prelude.{ℕ, List, ◌==◌, if◌then◌else◌, length}
use vexdb.Platform.{Platform}
use vexdb.Error.{Outcome, ok, err, dimension_mismatch}

pub record Vector ⦃p : Platform⦄ : Type 0 where
  pub values : List p.F32

module _ ⦃p : Platform⦄ where
  unfoldable pub new : List p.F32 → ℕ → Outcome Vector
  new values expected_dim =
      if length values == expected_dim
      then ok (record { values = values })
      else err (dimension_mismatch expected_dim (length values))

  abbrev pub from_vec : List p.F32 → Vector
  from_vec values = record { values = values }

  abbrev pub dim : Vector → ℕ
  dim v = length v.values

  abbrev pub as_slice : Vector → List p.F32
  as_slice v = v.values
