-- ===== src/Collections/Heap/Kept.antt =====
-- What a push, and a cut of the greatest item, keep of a heap.
use Prim.Native.Nat.{Ordering}
use vexdb.Prelude.{
  ℕ, zero, suc, ◌≤◌, List, [], ◌∷◌, ◌≡◌, arith, length, take, All, All-take, All-imp, All-both,
  Bool-cases, inl, inr, ltb, if◌then◌else◌, take_of_length-le,
}
use vexdb.Prelude.Order.{is_lt}
use vexdb.Collections.Heap.{push, push_all, pop}
use vexdb.Collections.Heap.Sorted.{All-push, length-push}
use vexdb.Collections.Heap.Bounded.{pop-take}

module _ {ℓ κ} {A : Type ℓ} (R : A → A → Type κ) where
  -- An item is related to those behind it.
  abbrev pub Pairwise : List A → Type κ
  Pairwise [] = Unit
  Pairwise (x ∷ xs) = All (R x) xs × Pairwise xs

  pub take-Pairwise : (n : ℕ) (xs : List A) → Pairwise xs → Pairwise (take n xs)
  take-Pairwise zero xs h = tt
  take-Pairwise (suc n) [] h = tt
  take-Pairwise (suc n) (x ∷ xs) h = (All-take (R x) n xs h.0, take-Pairwise n xs h.1)

  pub push-Pairwise :
      (cmp : A → A → Ordering) (sym_R : (x y : A) → R x y → R y x) (x : A) (h : List A)
      → All (R x) h
      → Pairwise h
      → Pairwise (push cmp x h)
  unfolding push
  push-Pairwise cmp sym_R x [] new h = (tt, tt)
  push-Pairwise cmp sym_R x (y ∷ ys) new h = elim (Bool-cases (is_lt (cmp x y))) [
    | inl e ↦ rw e (new, h)
    | inr e ↦
        rw e (All-push cmp (R y) x ys (sym_R x y new.0) h.0, push-Pairwise cmp sym_R x ys new.1 h.1)
  ]

  pub push_all-Pairwise :
      (cmp : A → A → Ordering) (sym_R : (x y : A) → R x y → R y x) (h xs : List A)
      → All (λ x. All (R x) h) xs
      → Pairwise h
      → Pairwise xs
      → Pairwise (push_all cmp h xs)
  unfolding push_all
  push_all-Pairwise cmp sym_R h [] across related its = related
  push_all-Pairwise cmp sym_R h (x ∷ xs) across related its =
      push_all-Pairwise cmp sym_R (push cmp x h) xs
        (All-imp (λ y both. All-push cmp (R y) x h (sym_R x y both.0) both.1) xs
          (All-both (R x) (λ y. All (R y) h) xs its.0 across.1))
        (push-Pairwise cmp sym_R x h across.0 related) its.1

module _ {ℓ} {A : Type ℓ} (cmp : A → A → Ordering) where
  -- A push followed by a cut of what is over the bound.
  pub push-cut :
      (cap : ℕ) (h : List A) (x : A)
      → length h ≤ cap
      → (if ltb cap (length (push cmp x h)) then pop (push cmp x h) else push cmp x h)
        ≡ take cap (push cmp x h)
  push-cut cap h x short = cut cap (push cmp x h) (omega (arith, length-push cmp x h))
    where
      cut :
          (cap : ℕ) (xs : List A)
          → length xs ≤ suc cap
          → (if ltb cap (length xs) then pop xs else xs) ≡ take cap xs
      cut cap [] le = ground (arith, take_of_length-le {A = A} cap [] (omega arith))
      cut cap (y ∷ ys) le = elim (Bool-cases (ltb cap (length (y ∷ ys)))) [
        | inl over ↦ let e : cap ≡ length ys = ground arith in rw over (rw e (pop-take cmp y ys))
        | inr fits ↦ rw fits (ground (arith, take_of_length-le cap (y ∷ ys)))
      ]

  pub All-push_all {κ} :
      (P : A → Type κ) (h xs : List A) → All P h → All P xs → All P (push_all cmp h xs)
  unfolding push_all
  All-push_all P h [] ph pxs = ph
  All-push_all P h (x ∷ xs) ph pxs =
      All-push_all P (push cmp x h) xs (All-push cmp P x h pxs.0 ph) pxs.1
