-- ===== src/Error.antt =====
-- crates/vex-core/src/error.rs: the engine's errors, and the outcome of a call: a value, an error,
-- or a panic (an index out of bounds, or an `expect` that fails). `stuck` is no outcome of the code: a
-- loop of the model used up its rounds.
pub mod Yield
use vexdb.Prelude.{ℕ, Option, none, some}

-- `VectorId(u64)` of vector.rs.
abbrev pub VectorId : Type 0
VectorId = ℕ

pub data VexError : Type 0 where
  dimension_mismatch : ℕ → ℕ → VexError
  duplicate_id : VectorId → VexError
  invalid_k : VexError

pub data Outcome {ℓ} (A : Type ℓ) : Type ℓ where
  ok : A → Outcome A
  err : VexError → Outcome A
  panic : Outcome A
  stuck : Outcome A

infixl 5 ◌>>=◌ ◌>>◌
abbrev pub ◌>>=◌ {ℓ κ} : {A : Type ℓ} {B : Type κ} → Outcome A → (A → Outcome B) → Outcome B
ok a >>= f = f a
err e >>= f = err e
panic >>= f = panic
stuck >>= f = stuck

abbrev pub ◌>>◌ {ℓ} : {B : Type ℓ} → Outcome (Unit {0}) → Outcome B → Outcome B
m >> k = m >>= λ _. k

-- An indexing or an `expect`, which panics where there is no value.
abbrev pub expect {ℓ} : {A : Type ℓ} → Option A → Outcome A
expect none = panic
expect (some a) = ok a

-- `result.expect(..)`, which panics on an error.
abbrev pub expect_ok {ℓ} : {A : Type ℓ} → Outcome A → Outcome A
expect_ok (ok a) = ok a
expect_ok (err e) = panic
expect_ok panic = panic
expect_ok stuck = stuck
