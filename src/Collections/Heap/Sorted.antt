-- ===== src/Collections/Heap/Sorted.antt =====
-- What `push` and `sort` do to a list.
use Prim.Native.Nat.{Ordering}
use mathlib.Core.List.Perm
use mathlib.Core.List.{Perm, append-nil, perm_middle}
use vexdb.Prelude.{
  suc, ◌+◌, true, false, List, [], ◌∷◌, ◌++◌, ◌≡◌, refl, arith, All, All-imp, length, Bool-cases,
  inl, inr,
}
use vexdb.Prelude.Order.{is_lt, IsTotalOrder}
use vexdb.Collections.Heap.{push, push_all, sort}

module _ {ℓ} {A : Type ℓ} (cmp : A → A → Ordering) where
  -- `y` is not before `x`.
  abbrev pub NotBefore : A → A → Type 0
  NotBefore x y = is_lt (cmp y x) ≡ false

  abbrev pub IsSorted : List A → Type 0
  IsSorted [] = Unit
  IsSorted (x ∷ xs) = All (NotBefore x) xs × IsSorted xs

  pub All-push {κ} : (P : A → Type κ) (x : A) (h : List A) → P x → All P h → All P (push cmp x h)
  unfolding push
  All-push P x [] px ph = (px, tt)
  All-push P x (y ∷ ys) px ph = ground (arith, All-push P x ys px ph.1)

  pub length-push : (x : A) (h : List A) → length (push cmp x h) ≡ suc (length h)
  unfolding push
  length-push x [] = refl
  length-push x (y ∷ ys) = ground (arith, length-push x ys)

  pub length-push_all : (h xs : List A) → length (push_all cmp h xs) ≡ length h + length xs
  unfolding push_all
  length-push_all h [] = omega arith
  length-push_all h (x ∷ xs) = omega (arith, length-push x h, length-push_all (push cmp x h) xs)

  push-perm : (x : A) (h : List A) → Perm (push cmp x h) (x ∷ h)
  unfolding push
  push-perm x [] = Perm.refl _
  push-perm x (y ∷ ys) = elim (Bool-cases (is_lt (cmp x y))) [
    | inl e ↦ rw e (Perm.refl _)
    | inr e ↦ rw e (Perm.trans (Perm.cons y (push-perm x ys)) (Perm.swap x y ys))
  ]

  push_all-perm : (h xs : List A) → Perm (push_all cmp h xs) (h ++ xs)
  unfolding push_all
  push_all-perm h [] = rw append-nil (Perm.refl h)
  push_all-perm h (x ∷ xs) =
      Perm.trans (push_all-perm (push cmp x h) xs)
        (Perm.trans (Perm.append_right xs (push-perm x h)) (Perm.symm (perm_middle h xs)))

  pub sort-perm : (xs : List A) → Perm (sort cmp xs) xs
  sort-perm xs = push_all-perm [] xs

  module _ (order : IsTotalOrder cmp) where
    open order use {cmp_refl, eq_of_cmp, lt_of_gt, gt_of_lt, lt_trans}

    -- An item is not before itself, nor before an item that is before it.
    pub NotBefore-refl : (x : A) → NotBefore x x
    NotBefore-refl x = ground (arith, cmp_refl x)

    pub NotBefore-of_lt : (x y : A) → is_lt (cmp x y) ≡ true → NotBefore x y
    NotBefore-of_lt x y h = ground (arith, gt_of_lt x y)

    pub NotBefore-trans : (x y z : A) → NotBefore x y → NotBefore y z → NotBefore x z
    NotBefore-trans x y z h k = ground (
      arith,
      eq_of_cmp y x,
      eq_of_cmp z y,
      eq_of_cmp z x,
      lt_of_gt y x,
      lt_of_gt z y,
      lt_trans x y z,
      gt_of_lt x z,
      gt_of_lt z x,
    )

    pub push-IsSorted : (x : A) (h : List A) → IsSorted h → IsSorted (push cmp x h)
    unfolding push
    push-IsSorted x [] s = (tt, tt)
    push-IsSorted x (y ∷ ys) s = elim (Bool-cases (is_lt (cmp x y))) [
      | inl e ↦ rw e (
        (
          NotBefore-of_lt x y e,
          All-imp (λ z n. NotBefore-trans x y z (NotBefore-of_lt x y e) n) ys s.0,
        ),
        s,
      )
      | inr e ↦ rw e (All-push (NotBefore y) x ys e s.0, push-IsSorted x ys s.1)
    ]

    pub push_all-IsSorted : (h xs : List A) → IsSorted h → IsSorted (push_all cmp h xs)
    unfolding push_all
    push_all-IsSorted h [] s = s
    push_all-IsSorted h (x ∷ xs) s = push_all-IsSorted (push cmp x h) xs (push-IsSorted x h s)

    pub sort-IsSorted : (xs : List A) → IsSorted (sort cmp xs)
    sort-IsSorted xs = push_all-IsSorted [] xs tt
