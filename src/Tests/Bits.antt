-- ===== src/Tests/Bits.antt =====
-- A platform for the tests whose numbers are two bit patterns, and the laws that hold of it.
use Prim.Native.Nat.{Ordering}
use Prim.Native.Nat.Ordering.{lt, eq, gt}
use vexdb.Prelude.{
  ℕ, ◌^◌, ◌<◌, Bool, true, false, not, ◌&&◌, Option, none, some, List, [], ◌∷◌, ◌≡◌, refl, arith,
  ◌==◌, if◌then◌else◌, leb,
}
use vexdb.Platform.{Platform}
use vexdb.Platform.Laws.{FloatBits, FloatOrder, ParsesBack, UsizeWidth}
use vexdb.Prelude.Order.{IsTotalOrder}

abbrev bits_of : Bool → ℕ
bits_of true = 0x3f80_0000
bits_of false = 0

abbrev compare_bits : Bool → Bool → Ordering
compare_bits true true = eq
compare_bits true false = gt
compare_bits false true = lt
compare_bits false false = eq

-- The JSON texts `1` and `0`.
abbrev print_bit : Bool → Option (List ℕ)
print_bit true = some (49 ∷ [])
print_bit false = some (48 ∷ [])

abbrev parse_bit : List ℕ → Option Bool
parse_bit (c ∷ []) = if c == 49 then some true else some false
parse_bit _ = none

instance abbrev pub bits : Platform
bits = record {
  F32 = Bool;
  zero_f = false;
  one_f = true;
  inf_f = true;
  add_f = λ a b. b;
  sub_f = λ a b. b;
  mul_f = λ a b. b;
  div_f = λ a b. a;
  neg_f = λ a. a;
  sqrt_f = λ a. a;
  fma_f = λ a b c. c;
  sum_start_f = false;
  lt_f = λ a b. not a && b;
  eq_f = λ a b. b;
  total_cmp = compare_bits;
  to_bits = bits_of;
  from_bits = λ n. not (n == 0);
  F64 = ℕ;
  le_d = leb;
  one_d = 1;
  min_positive_d = 1;
  div_d = λ a b. a;
  mul_d = λ a b. a;
  max_d = λ a b. a;
  neg_d = λ a. a;
  ln_d = λ a. a;
  of_int_d = λ a. a;
  as_usize_d = λ a. 0;
  usize_max = 0xffff_ffff;
  has_avx2 = false;
  Value = Bool;
  get_v = λ v key. some v;
  as_f64_v = λ v. none;
  items_v = λ v. none;
  eq_v = λ a b. b;
  to_vec_v = print_bit;
  from_slice_v = parse_bit;
}

bits_of_bound : (a : Bool) → bits_of a < 2 ^ 32
bits_of_bound true = omega arith
bits_of_bound false = omega arith

nonzero_bits_of : (a : Bool) → not (bits_of a == 0) ≡ a
nonzero_bits_of true = refl
nonzero_bits_of false = refl

pub bits-FloatBits : FloatBits bits
bits-FloatBits = record { bits_bound = bits_of_bound; from-to_bits = nonzero_bits_of }

parse-print_bit : (v : Bool) {bytes : List ℕ} → print_bit v ≡ some bytes → parse_bit bytes ≡ some v
parse-print_bit true h = ground arith
parse-print_bit false h = ground arith

pub bits_back : (payload : Option Bool) → ParsesBack bits payload
bits_back payload v bs same printed = parse-print_bit v printed

pub bits-UsizeWidth : UsizeWidth bits
bits-UsizeWidth = record { at_most_64 = omega arith }

-- `false` stands below `true`.
compare_bits-IsTotalOrder : IsTotalOrder compare_bits
compare_bits-IsTotalOrder = record {
  lt_trans = λ x y z. ground arith;
  gt_of_lt = λ x y. ground arith;
  lt_of_gt = λ x y. ground arith;
  eq_of_cmp = λ x y. ground arith;
  cmp_refl = λ x. ground arith;
}

pub bits-FloatOrder : FloatOrder bits
bits-FloatOrder = record { total = compare_bits-IsTotalOrder; lt_total = λ a b h. ground arith }
