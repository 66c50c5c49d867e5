-- ===== src/Collections/Unique.antt =====
-- Association lists in which no key stands twice.
use vexdb.Prelude.{none, List, [], ◌∷◌, ◌≡◌, refl, arith, Bool-cases, inl, inr}
use vexdb.Collections.Dict.{Eq, get, insert, remove, get-insert, get-remove}

module _ {ℓ κ} {K : Type ℓ} {V : Type κ} ⦃e : Eq K⦄ where
  unfoldable pub IsUnique : List (K × V) → Type κ
  IsUnique [] = Unit
  IsUnique ((k, v) ∷ m) = (get m k ≡ none) × IsUnique m

  pub insert-IsUnique : (m : List (K × V)) (k : K) (v : V) → IsUnique m → IsUnique (insert m k v)
  unfolding IsUnique insert get
  insert-IsUnique [] k v u = (refl, tt)
  insert-IsUnique ((j, w) ∷ m) k v (absent, u) = elim (Bool-cases (e.beq j k)) [
    | inl h ↦ rw h (let same : j ≡ k = (e.beq_iff j k).0 h in rw same at absent, u)
    | inr h ↦ rw h (
      ground (arith, h, absent, get-insert m k v j, e.beq_iff k j, e.beq_iff j k),
      insert-IsUnique m k v u,
    )
  ]

  pub remove-IsUnique : (m : List (K × V)) (k : K) → IsUnique m → IsUnique (remove m k)
  unfolding IsUnique remove
  remove-IsUnique [] k u = tt
  remove-IsUnique ((j, w) ∷ m) k (absent, u) = elim (Bool-cases (e.beq j k)) [
    | inl h ↦ rw h (remove-IsUnique m k u)
    | inr h ↦ rw h (ground (arith, absent, get-remove m k j), remove-IsUnique m k u)
  ]
