-- ===== src/Collections/Heap/Bounded.antt =====
-- A bounded max-heap beside the sorted list.
use Prim.Native.Nat.{Ordering}
use vexdb.Prelude.{
  ℕ, zero, suc, ◌≤◌, true, false, none, some, List, [], ◌∷◌, ◌≡◌, refl, sym, ap, arith, length,
  take, All, Bool-cases, inl, inr, if◌then◌else◌, ltb, take-take, take_of_length-le, length-take-le,
  All-take, ◌∙◌,
}
use vexdb.Prelude.Order.{is_lt, IsTotalOrder}
use vexdb.Collections.Heap.{push, peek, pop}
use vexdb.Collections.Heap.Sorted.{IsSorted, NotBefore, length-push, NotBefore-trans}

module _ {ℓ} {A : Type ℓ} (cmp : A → A → Ordering) where
  -- Keeps the `cap` smallest items: pushes while there is room, and otherwise replaces the top by a
  -- smaller item.
  unfoldable pub offer : ℕ → List A → A → List A
  offer cap h x = if ltb (length h) cap then push cmp x h else elim (peek h) [
    | none ↦ h
    | some top ↦ if is_lt (cmp x top) then push cmp x (pop h) else h
  ]

  pub take-push-take :
      (n : ℕ) (x : A) (h : List A) → take n (push cmp x (take n h)) ≡ take n (push cmp x h)
  unfolding push
  take-push-take zero x h = refl
  take-push-take (suc n) x [] = refl
  take-push-take (suc n) x (y ∷ ys) = elim (Bool-cases (is_lt (cmp x y))) [
    | inl e ↦ rw e (take-take (suc n) (suc (suc n)) (x ∷ y ∷ ys) (omega arith))
    | inr e ↦ rw e (ap (◌∷◌ y) (take-push-take n x ys))
  ]

  All-peek {κ} : (P : A → Type κ) (h : List A) (top : A) → All P h → peek h ≡ some top → P top
  All-peek P [] top a e = cc
  All-peek P (x ∷ []) top a e = ground arith
  All-peek P (x ∷ y ∷ ys) top a e = All-peek P (y ∷ ys) top a.1 e

  pub peek_cons : (x : A) (h : List A) → (top : A) × (peek (x ∷ h) ≡ some top)
  peek_cons x [] = (x, refl)
  peek_cons x (y ∷ ys) = peek_cons y ys

  offer_room :
      (cap : ℕ) (h : List A) (x : A)
      → ltb (length h) cap ≡ true
      → offer cap h x ≡ take cap (push cmp x h)
  unfolding offer
  offer_room cap h x room =
      rw room (sym (take_of_length-le cap _ (ground (arith, length-push cmp x h))))

  pub pop-take : (x : A) (h : List A) → pop (x ∷ h) ≡ take (length h) (x ∷ h)
  pop-take x [] = refl
  pop-take x (y ∷ ys) = ap (◌∷◌ x) (pop-take y ys)

  -- An item that is before the top takes the top's place.
  push-pop :
      (x : A) (h : List A) (top : A)
      → peek h ≡ some top
      → is_lt (cmp x top) ≡ true
      → push cmp x (pop h) ≡ take (length h) (push cmp x h)
  unfolding push
  push-pop x [] top e lt = cc
  push-pop x (y ∷ []) top e lt = ground arith
  push-pop x (y ∷ z ∷ zs) top e lt = elim (Bool-cases (is_lt (cmp x y))) [
    | inl f ↦ rw f (ap (λ (l : List A). x ∷ y ∷ l) (pop-take z zs))
    | inr f ↦ rw f (ap (◌∷◌ y) (push-pop x (z ∷ zs) top e lt))
  ]

  module _ (order : IsTotalOrder cmp) where
    pub take-IsSorted : (n : ℕ) (h : List A) → IsSorted cmp h → IsSorted cmp (take n h)
    take-IsSorted zero h s = tt
    take-IsSorted (suc n) [] s = tt
    take-IsSorted (suc n) (x ∷ xs) s = (All-take _ n xs s.0, take-IsSorted n xs s.1)

    -- An item that is not before the top of a sorted heap goes behind all of it.
    take-push_last :
        (x : A) (h : List A) (top : A)
        → IsSorted cmp h
        → peek h ≡ some top
        → is_lt (cmp x top) ≡ false
        → take (length h) (push cmp x h) ≡ h
    unfolding push
    take-push_last x [] top s e ge = cc
    take-push_last x (y ∷ []) top s e ge = ground arith
    take-push_last x (y ∷ z ∷ zs) top s e ge =
        let behind : is_lt (cmp x y) ≡ false =
          NotBefore-trans cmp order y top x (All-peek (NotBefore cmp y) (z ∷ zs) top s.0 e) ge in
        rw behind (ap (◌∷◌ y) (take-push_last x (z ∷ zs) top s.1 e ge))

    offer_full :
        (h : List A) (x : A)
        → IsSorted cmp h
        → offer (length h) h x ≡ take (length h) (push cmp x h)
    unfolding offer
    offer_full [] x s = refl
    offer_full (y ∷ ys) x s =
        let (top, e) = peek_cons y ys in
        elim (Bool-cases (is_lt (cmp x top))) [
          | inl lt ↦ ground (arith, e, push-pop x (y ∷ ys) top e lt)
          | inr ge ↦ ground (arith, e, take-push_last x (y ∷ ys) top s e ge)
        ]

    -- Offering an item to a sorted heap within its bound is a push, cut to the bound.
    pub offer-take :
        (cap : ℕ) (h : List A) (x : A)
        → IsSorted cmp h
        → length h ≤ cap
        → offer cap h x ≡ take cap (push cmp x h)
    offer-take cap h x s le = elim (Bool-cases (ltb (length h) cap)) [
      | inl room ↦ offer_room cap h x room
      | inr full ↦ let e : length h ≡ cap = ground arith in rw (← e) (offer_full h x s)
    ]

    -- The first `cap` items of the list, whatever was cut from it before.
    pub offer_step :
        (cap : ℕ) (h : List A) (x : A)
        → IsSorted cmp h
        → offer cap (take cap h) x ≡ take cap (push cmp x h)
    offer_step cap h x s =
        offer-take cap (take cap h) x (take-IsSorted cap h s) (length-take-le cap h)
        ∙ take-push-take cap x h
