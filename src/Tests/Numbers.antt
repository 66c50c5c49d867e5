-- ===== src/Tests/Numbers.antt =====
-- A platform for the tests whose numbers are naturals, and the laws that hold of it.
use Prim.Native.Nat.{compare, max, min}
use vexdb.Prelude.{ℕ, ◌+◌, ◌*◌, ◌-◌, false, none, some, [], ◌∷◌, ltb, leb, ◌==◌, arith}
use vexdb.Prelude.Order.{compare-IsTotalOrder}
use vexdb.Platform.{Platform}
use vexdb.Platform.Laws.{FloatOrder}

-- |a - b|
abbrev gap : ℕ → ℕ → ℕ
gap a b = (a - b) + (b - a)

instance abbrev pub numbers : Platform
numbers = record {
  F32 = ℕ;
  zero_f = 0;
  one_f = 1;
  inf_f = 1_000_000;
  add_f = λ a b. a + b;
  sub_f = gap;
  mul_f = λ a b. a * b;
  div_f = λ a b. a;
  neg_f = λ a. a;
  sqrt_f = λ a. a;
  fma_f = λ a b c. a * b + c;
  sum_start_f = 0;
  lt_f = ltb;
  eq_f = λ a b. a == b;
  total_cmp = compare;
  to_bits = λ a. a;
  from_bits = λ a. a;
  F64 = ℕ;
  le_d = leb;
  one_d = 1;
  min_positive_d = 1;
  div_d = λ a b. a;
  mul_d = λ a b. a * b;
  max_d = max;
  neg_d = λ a. a;
  ln_d = λ a. a;
  of_int_d = λ a. a;
  as_usize_d = λ a. min a 1;
  usize_max = 0xffff_ffff_ffff_ffff;
  has_avx2 = false;
  Value = ℕ;
  get_v = λ v key. some v;
  as_f64_v = λ v. some v;
  items_v = λ v. none;
  eq_v = λ a b. a == b;
  to_vec_v = λ v. some (v ∷ []);
  from_slice_v = λ bytes. none;
}

pub numbers-FloatOrder : FloatOrder numbers
numbers-FloatOrder = record { total = compare-IsTotalOrder; lt_total = λ a b h. ground arith }
