-- ===== src/Collections/Vec.antt =====
-- std::vec::Vec: `push` and `swap_remove`, and what can be read at each position afterwards.
use vexdb.Prelude.{
  ℕ, zero, suc, ◌+◌, ◌-◌, ◌<◌, Option, none, some, List, [], ◌∷◌, ◌++◌, ◌≡◌, refl, sym, ◌∙◌, arith,
  length, get_elem?, set, ltb, ◌==◌, if◌then◌else◌, length-set, get_elem?-set_self,
  get_elem?-set_ne, Bool-cases, inl, inr, lt→ltb, ==_iff,
}
use vexdb.Collections.Heap.{peek as last, pop as drop_last}

module _ {ℓ} {A : Type ℓ} where
  -- The last element takes the place of the removed one; out of bounds it panics (`none`).
  unfoldable pub swap_remove : List A → ℕ → Option (List A)
  swap_remove xs i =
      if ltb i (length xs)
      then elim (last xs) [ none ↦ none | some l ↦ some (drop_last (set xs i l)) ]
      else none

  pub lt_of_get_elem? : (xs : List A) (i : ℕ) {a : A} → get_elem? xs i ≡ some a → i < length xs
  lt_of_get_elem? [] i h = cc
  lt_of_get_elem? (x ∷ xs) zero h = omega arith
  lt_of_get_elem? (x ∷ xs) (suc i) h = omega (arith, lt_of_get_elem? xs i h)

  pub get_elem?_of_lt : (xs : List A) (i : ℕ) → i < length xs → (a : A) × (get_elem? xs i ≡ some a)
  get_elem?_of_lt [] i h = absurd (omega arith)
  get_elem?_of_lt (x ∷ xs) zero h = (x, refl)
  get_elem?_of_lt (x ∷ xs) (suc i) h = get_elem?_of_lt xs i (omega arith)

  pub get_elem?-push :
      (xs : List A) (v : A) (i : ℕ)
      → get_elem? (xs ++ (v ∷ [])) i ≡ (if i == length xs then some v else get_elem? xs i)
  get_elem?-push [] v zero = refl
  get_elem?-push [] v (suc i) = ground arith
  get_elem?-push (x ∷ xs) v zero = ground arith
  get_elem?-push (x ∷ xs) v (suc i) = ground (arith, get_elem?-push xs v i)

  length-drop_last : (xs : List A) → length (drop_last xs) ≡ length xs - 1
  length-drop_last [] = omega arith
  length-drop_last (x ∷ []) = omega arith
  length-drop_last (x ∷ y ∷ ys) = omega (arith, length-drop_last (y ∷ ys))

  get_elem?-drop_last :
      (xs : List A) (j : ℕ)
      → get_elem? (drop_last xs) j ≡ (if ltb (suc j) (length xs) then get_elem? xs j else none)
  get_elem?-drop_last [] j = ground arith
  get_elem?-drop_last (x ∷ []) j = ground arith
  get_elem?-drop_last (x ∷ y ∷ ys) zero = ground arith
  get_elem?-drop_last (x ∷ y ∷ ys) (suc j) = ground (arith, get_elem?-drop_last (y ∷ ys) j)

  get_elem?-drop_last_lt :
      (xs : List A) (j : ℕ) → suc j < length xs → get_elem? (drop_last xs) j ≡ get_elem? xs j
  get_elem?-drop_last_lt xs j h = get_elem?-drop_last xs j ∙ (rw (lt→ltb _ _ h))

  last-get_elem? : (xs : List A) → last xs ≡ get_elem? xs (length xs - 1)
  last-get_elem? [] = refl
  last-get_elem? (x ∷ []) = ground arith
  last-get_elem? (x ∷ y ∷ ys) = ground (arith, last-get_elem? (y ∷ ys))

  moved_elem :
      (xs : List A) (i j : ℕ) (l : A)
      → i < length xs
      → get_elem? xs (length xs - 1) ≡ some l
      → j < length xs - 1
      → get_elem? (drop_last (set xs i l)) j
        ≡ (if i == j then get_elem? xs (length xs - 1) else get_elem? xs j)
  moved_elem xs i j l h at_end hj =
      let size = length-set xs i l in
      let inner = get_elem?-drop_last_lt (set xs i l) j (omega arith) in
      elim (Bool-cases (i == j)) [
        | inl e ↦
            let same : i ≡ j = (==_iff i j).0 e in
            rw e (inner ∙ (rw (← same) (get_elem?-set_self xs i l h ∙ sym at_end)))
        | inr e ↦ rw e (inner ∙ get_elem?-set_ne xs l (λ q. cc (e, (==_iff i j).1 q)))
      ]

  -- `swap_remove` in bounds: the new list, its length, and each of its positions.
  pub swap_remove_lem :
      (xs : List A) (i : ℕ)
      → i < length xs
      → (ys : List A) × (swap_remove xs i ≡ some ys)
        × (length ys + 1 ≡ length xs)
        × ((j : ℕ)
            → j < length ys
            → get_elem? ys j ≡ (if i == j then get_elem? xs (length ys) else get_elem? xs j))
  unfolding swap_remove
  swap_remove_lem xs i h =
      let (l, at_end) = get_elem?_of_lt xs (length xs - 1) (omega arith) in
      let ys = drop_last (set xs i l) in
      let size : length ys ≡ length xs - 1 =
        omega (arith, length-drop_last (set xs i l), length-set xs i l) in
      (
        ys,
        ground (arith, last-get_elem? xs),
        omega arith,
        λ j hj. rw size (moved_elem xs i j l h at_end (omega arith)),
      )
