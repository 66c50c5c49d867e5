-- ===== src/Prelude/Order.antt =====
-- Total orders, as Rust's `Ord::cmp` gives them, and `Ordering::then_with`.
use Prim.Native.Nat.{compare, Ordering}
use Prim.Native.Nat.Ordering.{lt, eq, gt}
use mathlib.Core.Path.{◌≡◌}
use mathlib.Core.Bool.{Bool, true, false}
use native.Mathlib.Omega.{arith}

pub record IsTotalOrder {ℓ} {A : Type ℓ} (cmp : A → A → Ordering) : Type ℓ where
  pub lt_trans : (x y z : A) → cmp x y ≡ lt → cmp y z ≡ lt → cmp x z ≡ lt
  pub gt_of_lt : (x y : A) → cmp x y ≡ lt → cmp y x ≡ gt
  pub lt_of_gt : (x y : A) → cmp x y ≡ gt → cmp y x ≡ lt
  pub eq_of_cmp : (x y : A) → cmp x y ≡ eq → x ≡ y
  pub cmp_refl : (x : A) → cmp x x ≡ eq

pub compare-IsTotalOrder : IsTotalOrder compare
compare-IsTotalOrder = ground arith

-- `a < b` for the order that `cmp` gives.
abbrev pub is_lt : Ordering → Bool
is_lt lt = true
is_lt _ = false

abbrev pub then_with : Ordering → Ordering → Ordering
then_with eq second = second
then_with first _ = first
