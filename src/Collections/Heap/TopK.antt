-- ===== src/Collections/Heap/TopK.antt =====
-- The `k` first items of a list in an order: what every exact search promises.
use Prim.Native.Nat.{Ordering, min}
use mathlib.Core.List.{Perm}
use vexdb.Prelude.{
  ℕ, zero, suc, List, [], ◌∷◌, ◌++◌, ◌≡◌, arith, length, take, drop, All, take-append-drop,
  length-take, All-drop,
}
use vexdb.Prelude.Order.{IsTotalOrder}
use vexdb.Collections.Heap.{sort}
use vexdb.Collections.Heap.Sorted.{IsSorted, NotBefore, sort-IsSorted, sort-perm, length-push_all}
use vexdb.Collections.Heap.Bounded.{take-IsSorted}

module _ {ℓ} {A : Type ℓ} (cmp : A → A → Ordering) where
  -- `best` is sorted, has `k` of the items or all if there are fewer, and no item left out comes
  -- before one of them.
  pub record IsTopK (k : ℕ) (items best : List A) : Type ℓ where
    pub sorted : IsSorted cmp best
    pub size : length best ≡ min k (length items)
    pub left_out : List A
    pub parts : Perm (best ++ left_out) items
    pub behind : All (λ b. All (NotBefore cmp b) left_out) best

  drop_behind :
      (k : ℕ) (xs : List A)
      → IsSorted cmp xs
      → All (λ b. All (NotBefore cmp b) (drop k xs)) (take k xs)
  drop_behind zero xs s = tt
  drop_behind (suc k) [] s = tt
  drop_behind (suc k) (x ∷ xs) s = (All-drop (NotBefore cmp x) k xs s.0, drop_behind k xs s.1)

  pub take-sort-IsTopK :
      IsTotalOrder cmp → (k : ℕ) (items : List A) → IsTopK k items (take k (sort cmp items))
  take-sort-IsTopK order k items = record {
    sorted = take-IsSorted cmp order k (sort cmp items) (sort-IsSorted cmp order items);
    size = omega (arith, length-take k (sort cmp items), length-push_all cmp [] items);
    left_out = drop k (sort cmp items);
    parts = rw take-append-drop (sort-perm cmp items);
    behind = drop_behind k (sort cmp items) (sort-IsSorted cmp order items);
  }
