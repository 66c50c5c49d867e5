-- ===== src/Flat/ItemOrder.antt =====
-- The order of heap items (`impl Ord for HeapItem`) is a total order.
use vexdb.Prelude.{arith}
use vexdb.Prelude.Order.{IsTotalOrder}
use vexdb.Platform.{Platform}
use vexdb.Platform.Laws.{FloatOrder}
use vexdb.Flat.{cmp_item}

module _ ⦃p : Platform⦄ (floats : FloatOrder p) where
  open floats use {total}

  pub cmp_item-IsTotalOrder : IsTotalOrder cmp_item
  unfolding cmp_item
  cmp_item-IsTotalOrder = record {
    cmp_refl = λ a. ground (arith, total.cmp_refl a.distance);
    eq_of_cmp = λ a b. ground (arith, total.eq_of_cmp a.distance b.distance);
    lt_of_gt = λ a b. ground (
      arith,
      total.eq_of_cmp a.distance b.distance,
      total.lt_of_gt a.distance b.distance,
      total.cmp_refl a.distance,
    );
    gt_of_lt = λ a b. ground (
      arith,
      total.eq_of_cmp a.distance b.distance,
      total.gt_of_lt a.distance b.distance,
      total.cmp_refl a.distance,
    );
    lt_trans = λ a b c. ground (
      arith,
      total.eq_of_cmp a.distance b.distance,
      total.eq_of_cmp b.distance c.distance,
      total.lt_trans a.distance b.distance c.distance,
      total.cmp_refl a.distance,
    );
  }
