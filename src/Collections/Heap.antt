-- ===== src/Collections/Heap.antt =====
-- std::collections::BinaryHeap, over the order `cmp` of its items. A heap is kept as the ascending
-- list of its items: the top of a max-heap is the last one, the top of a heap of `Reverse` the
-- first one, and `into_sorted_vec` is the list itself.
pub mod Sorted
pub mod Bounded
pub mod TopK
pub mod Kept
use Prim.Native.Nat.{Ordering}
use vexdb.Prelude.{ℕ, Bool, true, false, Option, none, some, List, [], ◌∷◌, if◌then◌else◌}
use vexdb.Prelude.Order.{is_lt}

module _ {ℓ} {A : Type ℓ} where
  -- The greatest item of a max-heap.
  abbrev pub peek : List A → Option A
  peek [] = none
  peek (x ∷ []) = some x
  peek (x ∷ y ∷ ys) = peek (y ∷ ys)

  -- A max-heap without its greatest item.
  abbrev pub pop : List A → List A
  pop [] = []
  pop (x ∷ []) = []
  pop (x ∷ y ∷ ys) = x ∷ pop (y ∷ ys)

module _ {ℓ} {A : Type ℓ} (cmp : A → A → Ordering) where
  unfoldable pub push : A → List A → List A
  push x [] = x ∷ []
  push x (y ∷ ys) = if is_lt (cmp x y) then x ∷ y ∷ ys else y ∷ push x ys

  -- Pushes a list of items, the first one first.
  unfoldable pub push_all : List A → List A → List A
  push_all h [] = h
  push_all h (x ∷ xs) = push_all (push x h) xs

  -- The items in ascending order, an earlier one first among equals.
  abbrev pub sort : List A → List A
  sort xs = push_all [] xs
